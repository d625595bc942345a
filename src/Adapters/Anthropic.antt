-- ===== src/Adapters/Anthropic.antt =====
-- internal/provider/anthropic.go. Streaming is an error, sent before the channels are handed out.
use kenbun.Prelude.{ℕ, String, Option, none, some, List, [], ◌∷◌, ℤ, if◌then◌else◌}
use kenbun.Provider.{Message, ChatRequest, ChatResponse, Outcome, ok, err}
use kenbun.Channels.{Send}
use kenbun.Adapters.{refuse}
use kenbun.Adapters.Ollama.{is_ok}

pub record ClaudePayload : Type 0 where
  pub model : String
  pub messages : List Message
  pub max_tokens : ℕ

-- the texts of the content, and the usage
pub record ClaudeResult : Type 0 where
  pub content : List String
  pub input_tokens : ℤ
  pub output_tokens : ℤ

-- the request with its API key, the error made of a status, and `Decode`
pub record ClaudeHttp (X B : Type 0) : Type 0 where
  pub post : String → ClaudePayload → Outcome X (ℕ × B)
  pub status_error : ℕ → X
  pub decode : B → Outcome X ClaudeResult
  pub not_implemented : X

unfoldable pub claude_payload : ChatRequest → ClaudePayload
claude_payload req = record { model = req.model; messages = req.messages; max_tokens = 1024 }

module _ {X B : Type 0} (h : ClaudeHttp X B) where
  -- `result.Content[0]` panics if there is no content.
  unfoldable pub claude_response :
      String → ClaudeResult → List String → Option (Outcome X ChatResponse)
  claude_response model result [] = none
  claude_response model result (text ∷ more) = some (
      ok (record {
        content = text;
        model = model;
        provider = "anthropic";
        prompt_tokens = result.input_tokens;
        completion_tokens = result.output_tokens;
      }))

  unfoldable pub claude_decoded : String → Outcome X ClaudeResult → Option (Outcome X ChatResponse)
  unfolding claude_response
  claude_decoded model (err x) = some (err x)
  claude_decoded model (ok result) = claude_response model result result.content

  unfoldable pub claude_answer : String → Outcome X (ℕ × B) → Option (Outcome X ChatResponse)
  unfolding claude_decoded
  claude_answer model (err x) = some (err x)
  claude_answer model (ok (status, body)) =
      if is_ok status
      then claude_decoded model (h.decode body)
      else some (err (h.status_error status))

  -- `Chat`
  unfoldable pub anthropic_chat : String → ChatRequest → Option (Outcome X ChatResponse)
  unfolding claude_payload claude_answer
  anthropic_chat api_key req = claude_answer req.model (h.post api_key (claude_payload req))

  -- `ChatStream`
  unfoldable pub anthropic_stream : ChatRequest → List (Send X)
  anthropic_stream req = refuse h.not_implemented
