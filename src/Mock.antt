-- ===== src/Mock.antt =====
-- internal/provider/mock.go: the provider with fixed answers. Ranging over a text yields its
-- characters, which are a parameter, each as a text; whether the context is done is asked before
-- each.
pub mod Billing
use Prim.Native.String.{◌++◌ as ◌<>◌}
use kenbun.Prelude.{ℕ, suc, String, Bool, Option, none, some, List, [], ◌∷◌, pos, if◌then◌else◌}
use kenbun.Provider.{Message, ChatRequest, ChatResponse, ChatChunk}
use kenbun.Exchange.{StreamEvent, chunk, closed}

-- `req.Messages[len(req.Messages)-1].Content`, or `none` for the panic if there is no message
unfoldable pub last_content : List Message → Option String
last_content [] = none
last_content (m ∷ []) = some m.content
last_content (m ∷ n ∷ ms) = last_content (n ∷ ms)

unfoldable pub mock_response : String → ChatRequest → String → ChatResponse
mock_response name req said = record {
  content = "[MOCK RESPONSE from " <> (name <> ("] You said: " <> said));
  model = req.model;
  provider = name;
  prompt_tokens = pos 10;
  completion_tokens = pos 20;
}

-- `Chat`
unfoldable pub mock_chat : String → ChatRequest → Option ChatResponse
unfolding last_content mock_response
mock_chat name req = elim (last_content req.messages) [
  | none ↦ none
  | some said ↦ some (mock_response name req said)
]

abbrev pub prompt_chunk : ChatChunk
prompt_chunk = record {
  content = "";
  finish_reason = "";
  prompt_tokens = pos 10;
  completion_tokens = pos 0;
}

abbrev pub character_chunk : String → ChatChunk
character_chunk char = record {
  content = char;
  finish_reason = "";
  prompt_tokens = pos 0;
  completion_tokens = pos 0;
}

abbrev pub last_chunk : ChatChunk
last_chunk = record {
  content = "";
  finish_reason = "stop";
  prompt_tokens = pos 0;
  completion_tokens = pos 20;
}

module _ {X : Type 0} where
  -- The loop over the characters, from character `i` on. The deferred calls close the channel.
  unfoldable pub send_characters : (ℕ → Bool) → ℕ → List String → List (StreamEvent X)
  send_characters done i [] = chunk last_chunk ∷ closed ∷ []
  send_characters done i (char ∷ chars) =
      let rest = send_characters done (suc i) chars in
      if done i then closed ∷ [] else chunk (character_chunk char) ∷ rest

  -- `ChatStream` after the reply is put together: `characters` ranges over a text.
  unfoldable pub mock_stream :
      (String → List String) → (ℕ → Bool) → String → String → List (StreamEvent X)
  unfolding send_characters
  mock_stream characters done name said =
      let response = "[MOCK STREAM from " <> (name <> ("] You said: " <> said)) in
      chunk prompt_chunk ∷ send_characters done 0 (characters response)
