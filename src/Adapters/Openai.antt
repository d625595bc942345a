-- ===== src/Adapters/Openai.antt =====
-- internal/provider/openai.go.
use kenbun.Prelude.{String, Bool, true, false, Option, none, some, List, [], ◌∷◌, ℤ, pos, map}
use kenbun.Provider.{Message, ChatRequest, ChatResponse, ChatChunk, Outcome, ok, err}
use kenbun.Channels.{Send, put}
use kenbun.Adapters.{Source, finish, refuse}

pub record CompletionRequest : Type 0 where
  pub model : String
  pub messages : List Message
  pub stream : Bool

-- The contents of the choices, and the rest of what is read.
pub record Completion : Type 0 where
  pub choices : List String
  pub model : String
  pub prompt_tokens : ℤ
  pub completion_tokens : ℤ

-- the content and the finish reason of each choice
abbrev pub Delta : Type 0
Delta = List (String × String)

unfoldable pub openai_messages : List Message → List Message
openai_messages = map (λ m. record { role = m.role; content = m.content })

unfoldable pub openai_request : Bool → ChatRequest → CompletionRequest
unfolding openai_messages
openai_request stream req = record {
  model = req.model;
  messages = openai_messages req.messages;
  stream = stream;
}

abbrev pub openai_chunk : String → String → ChatChunk
openai_chunk content finish_reason = record {
  content = content;
  finish_reason = finish_reason;
  prompt_tokens = pos 0;
  completion_tokens = pos 0;
}

module _ {X : Type 0} where
  -- `resp.Choices[0]` panics if there is no choice.
  unfoldable pub openai_response : Completion → List String → Option (Outcome X ChatResponse)
  openai_response resp [] = none
  openai_response resp (content ∷ more) = some (
      ok (record {
        content = content;
        model = resp.model;
        provider = "openai";
        prompt_tokens = resp.prompt_tokens;
        completion_tokens = resp.completion_tokens;
      }))

  unfoldable pub openai_answer : Outcome X Completion → Option (Outcome X ChatResponse)
  unfolding openai_response
  openai_answer (err x) = some (err x)
  openai_answer (ok resp) = openai_response resp resp.choices

  -- `Chat`
  unfoldable pub openai_chat :
      (CompletionRequest → Outcome X Completion) → ChatRequest → Option (Outcome X ChatResponse)
  unfolding openai_request openai_answer
  openai_chat create req = openai_answer (create (openai_request false req))

  -- The loop of the goroutine; a response with no choice is passed over.
  unfoldable pub openai_loop : List Delta → Option X → List (Send X)
  openai_loop [] failure = finish failure
  openai_loop ([] ∷ rest) failure = openai_loop rest failure
  openai_loop (((content, finish_reason) ∷ more) ∷ rest) failure =
      put (openai_chunk content finish_reason) ∷ openai_loop rest failure

  unfoldable pub openai_sends : Outcome X (Source X Delta) → List (Send X)
  unfolding openai_loop
  openai_sends (err x) = refuse x
  openai_sends (ok source) = openai_loop source.items source.failure

  -- `ChatStream`
  unfoldable pub openai_stream :
      (CompletionRequest → Outcome X (Source X Delta)) → ChatRequest → List (Send X)
  unfolding openai_request openai_sends
  openai_stream create_stream req = openai_sends (create_stream (openai_request true req))
