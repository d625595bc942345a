-- ===== src/Tests/Adapters.antt =====
-- Streams of the adapters at concrete inputs.
use kenbun.Prelude.{◌≡◌, ◌⊎◌, refl, String, false, none, List, [], ◌∷◌, pos}
use kenbun.Float.Fixed.{Fixed, fixed_float}
use kenbun.Provider.{ok, err}
use kenbun.Channels.{Sees, new_pipe, stop, hand, end_errs, end_chunks, take_closed}
use kenbun.Gateway.{stream_event, handle_stream}
use kenbun.Exchange.{StreamEvent, chunk, closed}
use kenbun.Adapters.{Source}
use kenbun.Adapters.Openai.{Delta, openai_chunk, openai_sends}
use kenbun.Adapters.Ollama.{Http, line_chunk, ollama_sends}
use kenbun.Adapters.Usage.{openai-Uncounted}
use kenbun.Tests.Requests.{acme, question, Desk, desk, noon, morning}

-- one delta with a text, one without a choice
abbrev deltas : Source String Delta
deltas = record { items = (("hi", "") ∷ []) ∷ [] ∷ []; failure = none }

abbrev hi_seen : List (StreamEvent String)
hi_seen = chunk (openai_chunk "hi" "") ∷ closed ∷ []

hi_read : Sees (new_pipe (openai_sends (ok deltas))) hi_seen
unfolding openai_sends new_pipe
hi_read = hand (openai_chunk "hi" "") refl (end_errs refl (end_chunks refl (take_closed refl stop)))

abbrev at_openai : Desk
at_openai = record desk { chat_stream = λ p req. hi_seen }

openai-Uncounted_example :
    let after = (handle_stream {F = Fixed} at_openai noon "openai" question acme morning).0 in
    (after.log ≡ [])
    ⊎ (after.log ≡ stream_event at_openai noon "openai" question acme (pos 0) (pos 0) ∷ [])
openai-Uncounted_example =
    openai-Uncounted at_openai noon (ok deltas) "openai" question acme hi_seen morning hi_read refl

-- a page of an error, without a line of a chat
abbrev http : Http String String
http = record {
  post = λ url payload. ok (404, "not found");
  wrap = λ x. x;
  status_error = λ status. "ollama error";
  decode = λ body. err "json";
  lines = λ body. record {
    items =
        record { content = ""; done = false; prompt_eval_count = pos 0; eval_count = pos 0 } ∷ [];
    failure = none;
  };
}

abbrev blank_seen : List (StreamEvent String)
blank_seen =
    chunk (
      line_chunk http
        (record { content = ""; done = false; prompt_eval_count = pos 0; eval_count = pos 0 }))
    ∷ closed
    ∷ []

blank_read : Sees (new_pipe (ollama_sends http (ok (404, "not found")))) blank_seen
unfolding ollama_sends new_pipe
blank_read = hand _ refl (end_errs refl (end_chunks refl (take_closed refl stop)))
