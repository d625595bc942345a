-- ===== src/Provider/Resilient/Streaming/Failures.antt =====
-- What the goroutine sends when no base stream begins, and how often it tries.
use kenbun.Prelude.{
  ℕ, zero, suc, ◌≡◌, refl, sym, ap, ◌∙◌, ◌+◌, ◌≤◌, Option, none, some, List, [], ◌∷◌, ◌++◌, pos,
  ltb_ℤ, Bool-cases, inl, inr, arith,
}
use mathlib.Core.Path.{subst}
use kenbun.Float.{Float}
use kenbun.Health.{record_error}
use kenbun.Provider.{ChatRequest}
use kenbun.Provider.Resilient.{ResilientProvider, rounds}
use kenbun.Provider.Resilient.Attempts.{attempts}
use kenbun.Provider.Resilient.Streaming.{
  First, begun, ended, failed, expired, StreamScript, Connection, next_error, rest_before, go_on,
  connect, connect_loop, resilient_stream,
}
use kenbun.Provider.Resilient.Streaming.Connect.{FruitlessRun, connect_loop-step}
use kenbun.Channels.{report, deferred_closes, new_pipe, Sees}
use kenbun.Channels.Signals.{error_raced}
use kenbun.Exchange.{StreamEvent, closed, problem, streamed, Services, Clock, World, Tenant}
use kenbun.Gateway.{write_log, stream_event, stream_loop}

module _ {X : Type 0} (p : ResilientProvider) (s : StreamScript X) where
  -- the error kept after the attempts from `i` on, `k` of them
  abbrev pub last_error : ℕ → ℕ → Option X → Option X
  last_error i zero last = last
  last_error i (suc k) last = last_error (suc i) k (next_error (s.first i) last)

  loop-fruitless :
      (k i : ℕ) (last : Option X)
      → FruitlessRun p s i k
      → (connect_loop p s k i last).1 ≡ report (last_error i k last) ∷ []
  unfolding connect_loop
  loop-fruitless zero i last f = refl
  loop-fruitless (suc k) i last (f, alive, fs) =
      connect_loop-step p s i k last f alive
      ∙ loop-fruitless k (suc i) (next_error (s.first i) last) fs

  -- If no attempt brings a chunk while the context lives, the goroutine sends the last error that
  -- an attempt showed, a nil one if none did.
  pub stream-fruitless :
      (n : ℕ)
      → p.max_retries ≡ pos n
      → FruitlessRun p s 0 (suc n)
      → (resilient_stream p s).1 ≡ report (last_error 0 (suc n) none) ∷ deferred_closes
  unfolding resilient_stream rounds
  stream-fruitless n max f =
      ap (λ r. (connect_loop p s (rounds r) 0 none).1 ++ deferred_closes) max
      ∙ ap (λ l. l ++ deferred_closes) (loop-fruitless (suc n) 0 none f)

  rest_before-attempts :
      (i left : ℕ) (next : Connection X)
      → attempts next.0 ≤ left
      → attempts (rest_before p i next).0 ≤ suc left
  unfolding rest_before
  rest_before-attempts i left next h = elim (Bool-cases (ltb_ℤ (pos i) p.max_retries)) [
    | inl again ↦ rw again (omega arith)
    | inr last ↦ rw last (omega arith)
  ]

  go_on-attempts :
      (i left : ℕ) (e : Option X) (next : Connection X)
      → attempts next.0 ≤ left
      → attempts (go_on p i e next).0 ≤ suc left
  unfolding go_on
  go_on-attempts i left (some c) next h = omega arith
  go_on-attempts i left none next h = rest_before-attempts i left next h

  connect-attempts :
      (i left : ℕ) (f : First X) (e : Option X) (next : Connection X)
      → attempts next.0 ≤ left
      → attempts (connect p i f e next).0 ≤ suc left
  unfolding connect
  connect-attempts i left (begun c rest) e next h = omega arith
  connect-attempts i left ended e next h = go_on-attempts i left e next h
  connect-attempts i left (failed x) e next h = go_on-attempts i left e next h
  connect-attempts i left (expired x) e next h = go_on-attempts i left e next h

  loop-attempts : (left i : ℕ) (last : Option X) → attempts (connect_loop p s left i last).0 ≤ left
  unfolding connect_loop
  loop-attempts zero i last = omega arith
  loop-attempts (suc left) i last =
      connect-attempts i left (s.first i) (s.ctx_err i) _
        (loop-attempts left (suc i) (next_error (s.first i) last))

  -- The goroutine opens at most `n + 1` base streams with `n` retries, whatever they and the
  -- contexts do.
  pub stream_bounded : (n : ℕ) → p.max_retries ≡ pos n → attempts (resilient_stream p s).0 ≤ n + 1
  unfolding resilient_stream rounds
  stream_bounded n max =
      let most : rounds p.max_retries ≡ n + 1 = rw max (omega arith) in
      rw (← most) (loop-attempts (rounds p.max_retries) 0 none)

module _ {F : Type 0} ⦃d : Float F⦄ {S B X P Y : Type 0} (s : Services S B X P Y) (t : Clock) where
  -- If every attempt is in vain and the last error is not nil, the handler may see the error, and
  -- then records it and logs nothing; or it may see the end of the chunks, and then logs a request
  -- with status 200 and no tokens and leaves the monitor as it was.
  pub outage-raced :
      (p : ResilientProvider) (script : StreamScript X) (n : ℕ) (x : X) (q : P) (req : ChatRequest)
      (tenant : Tenant) (w : World F S)
      → p.max_retries ≡ pos n
      → FruitlessRun p script 0 (suc n)
      → last_error p script 0 (suc n) none ≡ some x
      → let handled =
          λ (es : List (StreamEvent X)). stream_loop s t q req tenant es (pos 0) (pos 0) [] w in
        let pipe = new_pipe (resilient_stream p script).1 in
        ((noticed : List (StreamEvent X)) × Sees pipe noticed
          × ((handled noticed).0.monitor
              ≡ record_error t.replied (s.provider_name q) (pos 502) w.monitor)
          × ((handled noticed).0.log ≡ w.log))
        × ((missed : List (StreamEvent X)) × Sees pipe missed
            × (handled missed
                ≡ (write_log s t (stream_event s t q req tenant (pos 0) (pos 0)) w, streamed [])))
  unfolding stream_loop
  outage-raced p script n x q req tenant w max f last =
      let plan = stream-fruitless p script n max f ∙ ap (λ e. report e ∷ deferred_closes) last in
      let (error, end) = error_raced [] x in
      (
        (
          problem (some x) ∷ [],
          subst (λ l. Sees (new_pipe l) (problem (some x) ∷ [])) (sym plan) error,
          refl,
          refl,
        ),
        (closed ∷ [], subst (λ l. Sees (new_pipe l) (closed ∷ [])) (sym plan) end, refl),
      )
