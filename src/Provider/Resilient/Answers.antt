-- ===== src/Provider/Resilient/Answers.antt =====
-- What the wrapper answers: the first success, or the last error after the last retry.
use native.Mathlib.Nat.{pow-le-pow_right, mul-le-mul, le_refl}
use kenbun.Prelude.{
  ℕ, zero, suc, ◌+◌, ◌*◌, ◌^◌, ◌≤◌, ◌<◌, ◌≡◌, refl, ◌∙◌, ap, Option, none, some, List, [], ◌∷◌, pos,
  ltb_ℤ, true, false, arith,
}
use kenbun.Provider.{ChatResponse, ok, err}
use kenbun.Provider.Resilient.Attempts.{backoff_small}
use kenbun.Provider.Resilient.{
  Script, after_retries, Action, attempt, sleep, ResilientProvider, backoff, rounds, after,
  chat_loop, chat,
}

-- the actions up to attempt `i + k`, from attempt `i` on
abbrev pub history : ResilientProvider → ℕ → ℕ → List Action
history p i zero = attempt i ∷ []
history p i (suc k) = attempt i ∷ sleep (backoff p i) ∷ history p (suc i) k

-- the same with sleeps that double from the first, in nanoseconds
abbrev pub doubling : ℕ → ℕ → ℕ → List Action
doubling delay i zero = attempt i ∷ []
doubling delay i (suc k) = attempt i ∷ sleep (pos (2 ^ i * delay)) ∷ doubling delay (suc i) k

history-doubling :
    (p : ResilientProvider) (i k : ℕ)
    → i + k < 63
    → 2 ^ (i + k) * p.retry_delay < 2 ^ 63
    → history p i k ≡ doubling p.retry_delay i k
history-doubling p i zero h f = refl
history-doubling p i (suc k) h f =
    let d = p.retry_delay in
    let same : i + suc k ≡ suc i + k = omega arith in
    let under : 2 ^ i * d ≤ 2 ^ (i + suc k) * d =
      mul-le-mul {n₁ = 2 ^ i} {m₁ = d} {n₂ = 2 ^ (i + suc k)} {m₂ = d}
        (pow-le-pow_right (omega arith) (omega arith)) (le_refl d) in
    let wait = backoff_small p i (omega arith) (omega arith) in
    ap (λ t. attempt i ∷ sleep t ∷ history p (suc i) k) wait
    ∙ ap (λ l. attempt i ∷ sleep (pos (2 ^ i * d)) ∷ l)
        (history-doubling p (suc i) k (omega arith) (rw same at f))

module _ {X : Type 0} (p : ResilientProvider) (n : ℕ) (max : p.max_retries ≡ pos n)
    (s : Script X) where
  -- attempt `i` fails, the context is alive, and the wait after it is not cut short
  abbrev pub Fails : ℕ → Type 0
  Fails i = (x : X) × (s.outcome i ≡ err x) × (s.ctx_err i ≡ none) × (s.waited i ≡ none)

  -- so do the attempts from `i` on, `k` of them
  abbrev pub FailsRun : ℕ → ℕ → Type 0
  FailsRun i zero = Unit
  FailsRun i (suc k) = Fails i × FailsRun (suc i) k

  retried : (i : ℕ) → i < n → ltb_ℤ (pos i) p.max_retries ≡ true
  retried i h = rw max (ground arith)

  not_retried : ltb_ℤ (pos n) p.max_retries ≡ false
  not_retried = rw max (ground arith)

  loop-retry :
      (i left : ℕ) (last : Option X)
      → i < n
      → (f : Fails i)
      → chat_loop p s (suc left) i last
        ≡ after (attempt i ∷ sleep (backoff p i) ∷ []) (chat_loop p s left (suc i) (some f.0))
  unfolding chat_loop
  loop-retry i left last h (x, e, alive, slept) = rw (e, alive, slept, retried i h)

  ends-ok :
      (i left : ℕ) (last : Option X) (resp : ChatResponse)
      → s.outcome i ≡ ok resp
      → chat_loop p s (suc left) i last ≡ (ok resp, attempt i ∷ [])
  unfolding chat_loop
  ends-ok i left last resp e = rw e

  loop-ok :
      (k i j left : ℕ) (last : Option X) (resp : ChatResponse)
      → FailsRun i k
      → s.outcome j ≡ ok resp
      → i + k ≡ j
      → i + left ≡ n + 1
      → k < left
      → chat_loop p s left i last ≡ (ok resp, history p i k)
  loop-ok k i j zero last resp f e q l h = absurd (omega arith)
  loop-ok zero i j (suc left) last resp f e q l h =
      let here : j ≡ i = omega arith in ends-ok i left last resp (rw here at e)
  loop-ok (suc k) i j (suc left) last resp (f, fs) e q l h =
      loop-retry i left last (omega arith) f
      ∙ (rw
          (loop-ok k (suc i) j left (some f.0) resp fs e (omega arith) (omega arith) (omega arith)))

  ends-failed :
      (last : Option X) (x : X)
      → s.outcome n ≡ err x
      → s.ctx_err n ≡ none
      → chat_loop p s 1 n last
        ≡ (err (after_retries p.base_name p.max_retries (some x)), attempt n ∷ [])
  unfolding chat_loop
  ends-failed last x e alive = rw (e, alive, not_retried)

  loop-failed :
      (k i left : ℕ) (last : Option X) (x : X)
      → FailsRun i k
      → s.outcome n ≡ err x
      → s.ctx_err n ≡ none
      → i + k ≡ n
      → left ≡ suc k
      → chat_loop p s left i last
        ≡ (err (after_retries p.base_name p.max_retries (some x)), history p i k)
  loop-failed zero i left last x f e alive q l =
      let here : i ≡ n = omega arith in rw (l, here) (ends-failed last x e alive)
  loop-failed (suc k) i left last x (f, fs) e alive q l = rw l (
      loop-retry i (suc k) last (omega arith) f
      ∙ (rw (loop-failed k (suc i) (suc k) (some f.0) x fs e alive (omega arith) refl)))

  -- If the attempts before `k` fail while the context lives, and attempt `k`, within the retries,
  -- succeeds, then its response is the answer, after exactly these attempts, with a sleep after
  -- each failure that starts at the retry delay and doubles each time. `k` is below 63 and the
  -- doubled delay fits in 63 bits.
  pub chat_first_ok :
      (k : ℕ) (resp : ChatResponse)
      → k < n + 1
      → k < 63
      → 2 ^ k * p.retry_delay < 2 ^ 63
      → FailsRun 0 k
      → s.outcome k ≡ ok resp
      → chat p s ≡ (ok resp, doubling p.retry_delay 0 k)
  unfolding chat rounds
  chat_first_ok k resp h small fits f e =
      let start : 0 + k ≡ k = omega arith in
      ap (λ r. chat_loop p s (rounds r) 0 none) max
      ∙ loop-ok k 0 k (suc n) none resp f e (omega arith) (omega arith) (omega arith)
      ∙ ap (λ l. (ok resp, l)) (history-doubling p 0 k (omega arith) (rw start fits))

  -- If every attempt fails while the context lives, all `n + 1` attempts are made, no sleep follows
  -- the last one, and the answer is the last error, wrapped.
  pub chat_all_failed :
      (x : X)
      → FailsRun 0 n
      → s.outcome n ≡ err x
      → s.ctx_err n ≡ none
      → chat p s ≡ (err (after_retries p.base_name p.max_retries (some x)), history p 0 n)
  unfolding chat rounds
  chat_all_failed x f e alive =
      ap (λ r. chat_loop p s (rounds r) 0 none) max
      ∙ loop-failed n 0 (suc n) none x f e alive (omega arith) refl
