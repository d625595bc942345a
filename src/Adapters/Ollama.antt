-- ===== src/Adapters/Ollama.antt =====
-- internal/provider/ollama.go. `post` is the HTTP request to the host, with the payload's stream
-- flag; it gives the status and the body.
use Prim.Native.String.{◌++◌ as ◌<>◌}
use kenbun.Prelude.{
  ℕ, String, Bool, true, false, Option, none, some, List, [], ◌∷◌, ℤ, ltb, if◌then◌else◌, ◌==◌,
}
use kenbun.Provider.{Message, ChatRequest, ChatResponse, ChatChunk, Outcome, ok, err}
use kenbun.Channels.{Send, put}
use kenbun.Adapters.{Source, finish}

-- `NewOllamaProvider`
unfoldable pub ollama_host : String → String
ollama_host host = if host == "" then "http://localhost:11434" else host

pub record Payload : Type 0 where
  pub model : String
  pub messages : List Message
  pub stream : Bool

-- A line of the answer. A field that JSON leaves out has its zero value.
pub record Line : Type 0 where
  pub content : String
  pub done : Bool
  pub prompt_eval_count : ℤ
  pub eval_count : ℤ

-- HTTP, and the errors that the source makes of a failed request and of a status
pub record Http (X B : Type 0) : Type 0 where
  pub post : String → Payload → Outcome X (ℕ × B)
  pub wrap : X → X
  pub status_error : ℕ → X
  -- `Decode` of the whole body, and of its lines up to the end or an error
  pub decode : B → Outcome X Line
  pub lines : B → Source X Line

unfoldable pub ollama_payload : Bool → ChatRequest → Payload
ollama_payload stream req = record { model = req.model; messages = req.messages; stream = stream }

abbrev pub is_ok : ℕ → Bool
is_ok status = if ltb status 200 then false else if ltb 200 status then false else true

module _ {X B : Type 0} (h : Http X B) where
  unfoldable pub ollama_decoded : String → Outcome X Line → Outcome X ChatResponse
  ollama_decoded model (err x) = err x
  ollama_decoded model (ok line) = ok (record {
    content = line.content;
    model = model;
    provider = "ollama";
    prompt_tokens = line.prompt_eval_count;
    completion_tokens = line.eval_count;
  })

  unfoldable pub ollama_answer : String → Outcome X (ℕ × B) → Outcome X ChatResponse
  unfolding ollama_decoded
  ollama_answer model (err x) = err (h.wrap x)
  ollama_answer model (ok (status, body)) =
      if is_ok status then ollama_decoded model (h.decode body) else err (h.status_error status)

  -- `Chat`
  unfoldable pub ollama_chat : String → ChatRequest → Outcome X ChatResponse
  unfolding ollama_payload ollama_answer
  ollama_chat host req =
      ollama_answer req.model (h.post (host <> "/api/chat") (ollama_payload false req))

  abbrev pub line_chunk : Line → ChatChunk
  line_chunk line = record {
    content = line.content;
    finish_reason = "";
    prompt_tokens = line.prompt_eval_count;
    completion_tokens = line.eval_count;
  }

  -- The loop of the goroutine, up to a line that says it is the last.
  unfoldable pub ollama_loop : List Line → Option X → List (Send X)
  ollama_loop [] failure = finish failure
  ollama_loop (line ∷ rest) failure =
      let later = ollama_loop rest failure in
      put (line_chunk line) ∷ (if line.done then finish none else later)

  -- The status is not read.
  unfoldable pub ollama_sends : Outcome X (ℕ × B) → List (Send X)
  unfolding ollama_loop
  ollama_sends (err x) = finish (some x)
  ollama_sends (ok (status, body)) =
      let source = h.lines body in ollama_loop source.items source.failure

  -- `ChatStream`
  unfoldable pub ollama_stream : String → ChatRequest → List (Send X)
  unfolding ollama_payload ollama_sends
  ollama_stream host req = ollama_sends (h.post (host <> "/api/chat") (ollama_payload true req))
