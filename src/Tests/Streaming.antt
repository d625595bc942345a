-- ===== src/Tests/Streaming.antt =====
-- Streams at concrete inputs: a base stream that begins at the second attempt, and an outage.
use kenbun.Prelude.{ℕ, zero, suc, ◌≡◌, refl, String, none, some, List, [], ◌∷◌, pos, arith}
use kenbun.Float.Fixed.{Fixed, fixed_float}
use kenbun.Provider.Resilient.Streaming.{
  First, begun, failed, expired, StreamScript, resilient_stream,
}
use kenbun.Provider.Resilient.Streaming.Connect.{begun_stream-unreported}
use kenbun.Provider.Resilient.Streaming.Failures.{outage-raced}
use kenbun.Channels.{
  put, deferred_closes, Sees, new_pipe, stop, hand, end_errs, end_chunks, take_closed,
}
use kenbun.Channels.Order.{shown, Ends}
use kenbun.Exchange.{StreamEvent, chunk, closed, streamed}
use kenbun.Health.{record_error}
use kenbun.Gateway.{write_log, stream_event, stream_loop, handle_stream}
use kenbun.Tests.Providers.{retrying}
use kenbun.Tests.Requests.{acme, piece, question, Desk, desk, noon, morning}

-- what is seen of two chunks and the end
abbrev pub both : List (StreamEvent String)
both = chunk piece ∷ chunk piece ∷ closed ∷ []

both_read : Sees (new_pipe {X = String} (put piece ∷ put piece ∷ deferred_closes)) both
unfolding new_pipe
both_read =
    hand piece refl (hand piece refl (end_errs refl (end_chunks refl (take_closed refl stop))))

abbrev late : ℕ → First String
late zero = failed (some "down")
late (suc i) = begun piece (piece ∷ [])

abbrev restarted : StreamScript String
restarted = record { first = late; ctx_err = λ i. none }

late_read : Sees (new_pipe (resilient_stream retrying restarted).1) both
unfolding resilient_stream new_pipe
late_read = both_read

abbrev reading : Desk
reading = record desk { chat_stream = λ p req. both }

begun_stream-unreported_example :
    ((handle_stream {F = Fixed} reading noon "gemini" question acme morning).0.monitor
      ≡ morning.monitor)
    × (Ends both → shown both ≡ piece ∷ piece ∷ [])
begun_stream-unreported_example =
    begun_stream-unreported reading noon retrying restarted 2 1 piece (piece ∷ []) "gemini" question
      acme both morning refl (omega arith) (tt, refl, tt) refl late_read refl

-- every attempt runs out of time
abbrev down : StreamScript String
down = record { first = λ i. expired "deadline"; ctx_err = λ i. none }

outage-raced_example :
    let handled = λ (es : List (StreamEvent String)).
      stream_loop desk noon "gemini" question acme es (pos 0) (pos 0) [] morning in
    let pipe = new_pipe (resilient_stream retrying down).1 in
    ((noticed : List (StreamEvent String)) × Sees pipe noticed
      × ((handled noticed).0.monitor
          ≡ record_error {F = Fixed} 104 "gemini" (pos 502) morning.monitor)
      × ((handled noticed).0.log ≡ []))
    × ((missed : List (StreamEvent String)) × Sees pipe missed
        × (handled missed ≡ (
          write_log desk noon
              (stream_event desk noon "gemini" question acme (pos 0) (pos 0))
              morning,
          streamed [],
        )))
outage-raced_example =
    outage-raced desk noon retrying down 2 "deadline" "gemini" question acme morning refl
      (tt, refl, (tt, refl, (tt, refl, tt))) refl
