-- ===== src/Provider/Resilient/Attempts.antt =====
-- How often the base provider is called, how long the wrapper sleeps, and what it answers.
use mathlib.Core.Path.{subst}
use native.Mathlib.Nat.{zero-add, pow-le-pow_right, two-pow-succ, add-mul, mul-le-mul, le_refl}
use kenbun.Prelude.{
  ℕ, zero, suc, ◌+◌, ◌*◌, ◌-◌, ◌^◌, ◌≤◌, ◌<◌, ◌≡◌, ◌∙◌, ap, Option, none, some, Bool-cases, inl,
  inr, true, List, [], ◌∷◌, pos, ltb_ℤ, wrap64, pos_part, arith,
}
use kenbun.Provider.{ChatResponse, Outcome, ok, err}
use kenbun.Provider.Resilient.{
  Script, Action, attempt, sleep, ResilientProvider, pow2, scale, backoff, pause, round, rounds,
  Run, chat_loop, chat,
}

abbrev pub attempts : List Action → ℕ
attempts [] = 0
attempts (attempt i ∷ rest) = 1 + attempts rest
attempts (sleep t ∷ rest) = attempts rest

-- nanoseconds slept
abbrev pub slept : List Action → ℕ
slept [] = 0
slept (attempt i ∷ rest) = slept rest
slept (sleep t ∷ rest) = pos_part t + slept rest

pow2_small : (i : ℕ) → i < 63 → pow2 i ≡ pos (2 ^ i)
unfolding pow2
pow2_small i h = ground arith

scale_small : (n k : ℕ) → n * k < 2 ^ 63 → scale (pos n) k ≡ pos (n * k)
unfolding scale wrap64
scale_small n k h = ground arith

-- As long as it fits, the backoff doubles with every attempt.
pub backoff_small :
    (p : ResilientProvider) (i : ℕ)
    → i < 63
    → 2 ^ i * p.retry_delay < 2 ^ 63
    → backoff p i ≡ pos (2 ^ i * p.retry_delay)
unfolding backoff
backoff_small p i h k =
    ap (λ t. scale t p.retry_delay) (pow2_small i h) ∙ scale_small (2 ^ i) p.retry_delay k

rounds_lem : (n : ℕ) → rounds (pos n) ≡ n + 1
unfolding rounds
rounds_lem n = omega arith

-- the nanoseconds that the waits after attempt `i` can still take, with `n` retries
abbrev room : ResilientProvider → ℕ → ℕ → ℕ
room p n i = (2 ^ n - 2 ^ i) * p.retry_delay

-- what holds of a run with `left` rounds to go, whatever the script
record IsBounded {X : Type 0} (left most : ℕ) (r : Run X) : Type 0 where
  few : attempts r.1 ≤ left
  short : slept r.1 ≤ most

module _ (p : ResilientProvider) (n : ℕ) (max : p.max_retries ≡ pos n) (small : n < 63)
    (fits : 2 ^ n * p.retry_delay < 2 ^ 63) where
  room_mono : (i : ℕ) → room p n (suc i) ≤ room p n i
  room_mono i =
      let step : 2 ^ suc i ≡ 2 ^ i + 2 ^ i = two-pow-succ i in
      mul-le-mul {n₁ = 2 ^ n - 2 ^ suc i} {m₁ = p.retry_delay} (omega arith) (le_refl p.retry_delay)

  room-step : (i : ℕ) → i < n → pos_part (backoff p i) + room p n (suc i) ≤ room p n i
  room-step i h =
      let step : 2 ^ suc i ≡ 2 ^ i + 2 ^ i = two-pow-succ i in
      let more : 2 ^ suc i ≤ 2 ^ n = pow-le-pow_right (omega arith) h in
      let d = p.retry_delay in
      let whole : (2 ^ i + (2 ^ n - 2 ^ suc i)) * d ≡ 2 ^ i * d + (2 ^ n - 2 ^ suc i) * d =
        add-mul (2 ^ i) (2 ^ n - 2 ^ suc i) d in
      let gap : 2 ^ i + (2 ^ n - 2 ^ suc i) ≡ 2 ^ n - 2 ^ i = omega arith in
      let under : 2 ^ i * d ≤ 2 ^ n * d =
        mul-le-mul {n₁ = 2 ^ i} {m₁ = d} {n₂ = 2 ^ n} {m₂ = d} (omega arith) (le_refl d) in
      rw (backoff_small p i (omega arith) (omega arith))
        (omega (arith, whole, ap (λ (t : ℕ). t * d) gap))

  below : (i : ℕ) → ltb_ℤ (pos i) p.max_retries ≡ true → i < n
  below i h = let k = subst (λ t. ltb_ℤ (pos i) t ≡ true) max h in ground arith

  module _ {X : Type 0} where
    pause-IsBounded :
        (i left : ℕ) (waited : Option X) (next : Run X)
        → i < n
        → IsBounded left (room p n (suc i)) next
        → IsBounded (suc left) (room p n i) (pause p i waited next)
    unfolding pause
    pause-IsBounded i left none next h b = omega (arith, room-step i h)
    pause-IsBounded i left (some c) next h b = omega (arith, room-step i h)

    round-IsBounded :
        (i left : ℕ) (out : Outcome X ChatResponse) (ctx_err waited : Option X) (next : X → Run X)
        → ((x : X) → IsBounded left (room p n (suc i)) (next x))
        → IsBounded (suc left) (room p n i) (round p i out ctx_err waited next)
    unfolding round
    round-IsBounded i left (ok resp) ctx_err waited next b = omega arith
    round-IsBounded i left (err x) (some c) waited next b = omega arith
    round-IsBounded i left (err x) none waited next b =
        let few = (b x).few in
        let short = (b x).short in
        elim (Bool-cases (ltb_ℤ (pos i) p.max_retries)) [
          | inl again ↦ rw again (pause-IsBounded i left waited (next x) (below i again) (b x))
          | inr last ↦ rw last (omega (arith, room_mono i))
        ]

    loop-IsBounded :
        (s : Script X) (left i : ℕ) (last : Option X)
        → i + left ≡ n + 1
        → IsBounded left (room p n i) (chat_loop p s left i last)
    unfolding chat_loop
    loop-IsBounded s zero i last e = omega arith
    loop-IsBounded s (suc left) i last e =
        round-IsBounded i left (s.outcome i) (s.ctx_err i) (s.waited i) _
          (λ x. loop-IsBounded s left (suc i) (some x) (omega arith))

    -- With `n` retries, where `n` is below 63 and the longest wait fits in 63 bits, the base
    -- provider is called at most `n + 1` times, and the sleeps between the calls add up to at most
    -- `2 ^ n - 1` times the first one, whatever the provider and the context do.
    pub chat_bounded :
        (s : Script X)
        → (attempts (chat p s).1 ≤ n + 1) × (slept (chat p s).1 ≤ (2 ^ n - 1) * p.retry_delay)
    unfolding chat
    chat_bounded s =
        let all : rounds p.max_retries ≡ n + 1 = rw max (rounds_lem n) in
        let b = loop-IsBounded s (rounds p.max_retries) 0 none (rw all (zero-add (n + 1))) in
        (rw (← all) b.few, b.short)
