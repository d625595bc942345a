-- ===== src/Mock/Billing.antt =====
-- What the gateway logs of a stream of the mock provider.
use Prim.Native.String.{◌++◌ as ◌<>◌}
use kenbun.Prelude.{ℕ, suc, ◌+◌, ◌≡◌, refl, ◌∙◌, ap, String, false, List, [], ◌∷◌, All, pos, arith}
use kenbun.Float.{Float, zero_float}
use kenbun.Provider.{ChatRequest, ChatChunk}
use kenbun.Exchange.{Tenant, chunk, closed, Services, Clock, World}
use kenbun.Gateway.{write_log, stream_event, handle_stream}
use kenbun.Gateway.Streams.{
  prompt_total, completion_total, IsCounted, after_chunks, stream-completed,
}
use kenbun.Mock.{prompt_chunk, character_chunk, last_chunk, send_characters, mock_stream}

-- the chunks of a reply that is not cut short, after the first one
abbrev sent_chunks : List String → List ChatChunk
sent_chunks [] = last_chunk ∷ []
sent_chunks (char ∷ chars) = character_chunk char ∷ sent_chunks chars

send_characters-alive :
    {X : Type 0} (i : ℕ) (chars : List String)
    → send_characters {X = X} (λ k. false) i chars ≡ after_chunks (sent_chunks chars) (closed ∷ [])
unfolding send_characters
send_characters-alive i [] = refl
send_characters-alive i (char ∷ chars) =
    ap (λ es. chunk (character_chunk char) ∷ es) (send_characters-alive (suc i) chars)

sent_prompt : (chars : List String) → prompt_total (sent_chunks chars) ≡ 0
sent_prompt [] = omega arith
sent_prompt (char ∷ chars) = omega (arith, sent_prompt chars)

sent_completion : (chars : List String) → completion_total (sent_chunks chars) ≡ 20
sent_completion [] = omega arith
sent_completion (char ∷ chars) = omega (arith, sent_completion chars)

sent_chunks-IsCounted : (chars : List String) → All IsCounted (sent_chunks chars)
sent_chunks-IsCounted [] = ((refl, refl), tt)
sent_chunks-IsCounted (char ∷ chars) = ((refl, refl), sent_chunks-IsCounted chars)

module _ {F : Type 0} ⦃d : Float F⦄ {S B X P Y : Type 0} (s : Services S B X P Y) (t : Clock) where
  -- A stream of the mock provider whose context is not done is logged once, with 10 tokens of the
  -- prompt and 20 of the completion and a cost of zero, whatever is said.
  pub mock_stream-logged :
      (characters : String → List String) (name said : String) (p : P) (req : ChatRequest)
      (tenant : Tenant) (w : World F S)
      → s.chat_stream p req ≡ mock_stream characters (λ k. false) name said
      → let event = stream_event {F = F} s t p req tenant (pos 10) (pos 20) in
        ((handle_stream s t p req tenant w).0 ≡ write_log s t event w)
        × (event.cost_cents ≡ zero_float)
  unfolding mock_stream stream_event
  mock_stream-logged characters name said p req tenant w e =
      let response = "[MOCK STREAM from " <> (name <> ("] You said: " <> said)) in
      let chars = characters response in
      let a = sent_prompt chars in
      let b = sent_completion chars in
      let whole = e ∙ ap (λ es. chunk prompt_chunk ∷ es) (send_characters-alive 0 chars) in
      let (same, costs_nothing) =
        stream-completed s t p req tenant (prompt_chunk ∷ sent_chunks chars) [] w whole
          ((refl, refl), sent_chunks-IsCounted chars) (omega (arith, a)) (omega (arith, b)) in
      let prompt : 10 + prompt_total (sent_chunks chars) ≡ 10 = omega (arith, a) in
      let completion : 0 + completion_total (sent_chunks chars) ≡ 20 = omega (arith, b) in
      (
        ap (λ r. r.0) same
            ∙ ap
                (λ n.
                  write_log s t
                    (stream_event s t p req tenant (pos n)
                      (pos (0 + completion_total (sent_chunks chars))))
                    w)
                prompt
            ∙ ap (λ n. write_log s t (stream_event s t p req tenant (pos 10) (pos n)) w) completion,
        refl,
      )
