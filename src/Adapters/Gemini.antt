-- ===== src/Adapters/Gemini.antt =====
-- internal/provider/gemini.go. The last message is sent, the others are the history of the chat.
use Prim.Native.String.{◌++◌ as ◌<>◌}
use kenbun.Prelude.{String, ◌||◌, Option, none, some, List, [], ◌∷◌, ℤ, if◌then◌else◌, ◌==◌}
use kenbun.Provider.{Message, ChatRequest, ChatResponse, Outcome, ok, err}
use kenbun.Channels.{Send, put}
use kenbun.Adapters.{Source, finish}

pub record Content : Type 0 where
  pub role : String
  pub text : String

-- The texts of the parts of each candidate, and the counts of the usage metadata. The content of a
-- candidate and the metadata are pointers that may be nil.
pub record Generated : Type 0 where
  pub candidates : List (Option (List String))
  pub usage : Option (ℤ × ℤ)

unfoldable pub gemini_role : String → String
gemini_role role = if (role == "assistant") || (role == "model") then "model" else "user"

unfoldable pub gemini_history : List Message → List Content
unfolding gemini_role
gemini_history [] = []
gemini_history (m ∷ []) = []
gemini_history (m ∷ n ∷ ms) =
    record { role = gemini_role m.role; text = m.content } ∷ gemini_history (n ∷ ms)

-- `req.Messages[len(req.Messages)-1].Content`, or `none` for the panic
unfoldable pub last_text : List Message → Option String
last_text [] = none
last_text (m ∷ []) = some m.content
last_text (m ∷ n ∷ ms) = last_text (n ∷ ms)

unfoldable pub join_parts : List String → String → String
join_parts [] rest = rest
join_parts (part ∷ parts) rest = part <> join_parts parts rest

abbrev pub join_before : List String → Option String → Option String
join_before parts none = none
join_before parts (some rest) = some (join_parts parts rest)

-- `none` if a content is nil
unfoldable pub join_candidates : List (Option (List String)) → Option String
unfolding join_parts
join_candidates [] = some ""
join_candidates (none ∷ more) = none
join_candidates (some parts ∷ more) = join_before parts (join_candidates more)

-- what is read of a response: the text and the two counts
abbrev pub with_usage : Option String → Option (ℤ × ℤ) → Option (String × ℤ × ℤ)
with_usage none usage = none
with_usage (some text) none = none
with_usage (some text) (some (prompt, completion)) = some (text, prompt, completion)

unfoldable pub read_generated : Generated → Option (String × ℤ × ℤ)
unfolding join_candidates
read_generated resp = with_usage (join_candidates resp.candidates) resp.usage

module _ {X : Type 0} where
  unfoldable pub gemini_response :
      String → Option (String × ℤ × ℤ) → Option (Outcome X ChatResponse)
  gemini_response model none = none
  gemini_response model (some (text, prompt, completion)) = some (
      ok (record {
        content = text;
        model = model;
        provider = "gemini";
        prompt_tokens = prompt;
        completion_tokens = completion;
      }))

  unfoldable pub gemini_answer : String → Outcome X Generated → Option (Outcome X ChatResponse)
  unfolding gemini_response read_generated
  gemini_answer model (err x) = some (err x)
  gemini_answer model (ok resp) = gemini_response model (read_generated resp)

  -- `Chat`: the model, the history and the last message go to the library.
  unfoldable pub gemini_chat :
      (String → List Content → String → Outcome X Generated)
      → ChatRequest
      → Option (Outcome X ChatResponse)
  unfolding gemini_history last_text gemini_answer
  gemini_chat send req = elim (last_text req.messages) [
    | none ↦ none
    | some text ↦ gemini_answer req.model (send req.model (gemini_history req.messages) text)
  ]

  -- one turn of the loop, on what was read of the response and what the later turns send
  unfoldable pub send_generated :
      Option (String × ℤ × ℤ) → Option (List (Send X)) → Option (List (Send X))
  send_generated none later = none
  send_generated (some read) none = none
  send_generated (some (text, prompt, completion)) (some later) = some (
      put (record {
        content = text;
        finish_reason = "";
        prompt_tokens = prompt;
        completion_tokens = completion;
      })
      ∷ later)

  -- The loop of the goroutine; `none` if it dereferences nil, which ends the process.
  unfoldable pub gemini_loop : List Generated → Option X → Option (List (Send X))
  unfolding send_generated read_generated
  gemini_loop [] failure = some (finish failure)
  gemini_loop (resp ∷ rest) failure =
      send_generated (read_generated resp) (gemini_loop rest failure)

  -- `ChatStream`
  unfoldable pub gemini_stream :
      (String → List Content → String → Source X Generated) → ChatRequest → Option (List (Send X))
  unfolding gemini_history last_text gemini_loop
  gemini_stream send req = elim (last_text req.messages) [
    | none ↦ none
    | some text ↦
        let source = send req.model (gemini_history req.messages) text in
        gemini_loop source.items source.failure
  ]
