-- ===== src/RateLimit/Bounds.antt =====
-- The tokens of every bucket stay between zero and the limit.
use mathlib.Core.Option.{some-injective}
use native.Mathlib.Nat.{le_refl}
use kenbun.Prelude.{
  ℕ, ◌-◌, ◌/◌, ◌%◌, ◌^◌, ◌≤◌, ◌<◌, String, ◌≡◌, sym, ◌∙◌, Bool-cases, Option-cases, inl, inr, true,
  some, ℤ, pos, sub_ℕ, quot, rem, ◌≤ℤ◌, ◌==◌, arith,
}
use kenbun.Prelude.Map.{lookup}
use kenbun.Float.{Float, IsIeee, ◌≼◌, zero_float, one_float, NonNeg}
use kenbun.Float.Laws
use kenbun.RateLimit.{
  LocalBucket, TokenBucket, nanos, seconds, initial_tokens, find_bucket, grown, cap_tokens, refill,
  decide, allow,
}
use kenbun.RateLimit.Step.{available, allow_lem, available-le}

module _ {F : Type 0} ⦃d : Float F⦄ where
  -- not below zero, and not from the future
  pub record IsSound (now : ℕ) (b : LocalBucket F) : Type 0 where
    pub tokens_low : zero_float ≼ b.tokens
    pub past : b.last ≤ now

  abbrev pub IsValid : ℕ → TokenBucket F → Type 0
  IsValid now tb = (q : String) (b : LocalBucket F) → lookup q tb.buckets ≡ some b → IsSound now b

  module _ (laws : IsIeee F) where
    open laws use {
      refl_of_le, le_trans, of_int_pos, of_int_mono, of_int_finite, div_nonneg, div_le, mul_nonneg,
      add_finite, sub_unit, trunc_bounds, ratio_mono,
    }

    pub NonNeg-div :
        (n k : ℕ) → 1 ≤ k → k ≤ 10 ^ 9 → NonNeg (d.div (d.of_int (pos n)) (d.ratio k 1))
    NonNeg-div n k h l = div_nonneg (d.of_int (pos n)) k h l (Laws.NonNeg-of_int laws n)

    div-le-top :
        (n k : ℕ)
        → 1 ≤ k
        → k ≤ 10 ^ 9
        → n ≤ 2 ^ 64
        → d.div (d.of_int (pos n)) (d.ratio k 1) ≼ d.of_int (pos (2 ^ 64))
    div-le-top n k h l b =
        le_trans _ _ _ (div_le (d.of_int (pos n)) k h l (Laws.NonNeg-of_int laws n))
          (of_int_mono (pos n) (pos (2 ^ 64)) (omega arith))

    -- The seconds of a duration that is not negative.
    pub seconds-bounds :
        (t : ℕ) → t < 2 ^ 63 → NonNeg {F = F} (seconds (pos t)) × (seconds (pos t) ≼ d.max_float)
    unfolding seconds quot rem
    seconds-bounds t h =
        let whole = d.of_int (pos (t / nanos)) in
        let part = d.div (d.of_int (pos (t % nanos))) (d.ratio nanos 1) in
        (
          Laws.NonNeg-add laws whole part (Laws.NonNeg-of_int laws (t / nanos))
              (NonNeg-div (t % nanos) nanos (omega arith) (omega arith)),
          add_finite whole part (of_int_mono (pos (t / nanos)) (pos (2 ^ 64)) (omega arith))
              (div-le-top (t % nanos) nanos (omega arith) (omega arith) (omega arith)),
        )

    pub rate-finite : (n : ℕ) → n ≤ 2 ^ 64 → d.div (d.of_int (pos n)) (d.ratio 60 1) ≼ d.max_float
    rate-finite n h =
        le_trans _ _ _ (div-le-top n 60 (omega arith) (omega arith) h)
          (of_int_finite (2 ^ 64) (omega arith))

    pub NonNeg-grown :
        (now n : ℕ) (b : LocalBucket F)
        → now < 2 ^ 63
        → n < 2 ^ 63
        → IsSound now b
        → NonNeg (grown now (pos n) b)
    unfolding grown
    NonNeg-grown now n b h k s =
        let rate = d.div (d.of_int (pos n)) (d.ratio 60 1) in
        let t : ℕ = now - b.last in
        let elapsed : sub_ℕ now b.last ≡ pos t = ground arith in
        let (low, high) = seconds-bounds t (omega arith) in
        let step = d.mul (seconds (pos t)) rate in
        rw (elapsed, grown)
          (Laws.NonNeg-add laws b.tokens step s.tokens_low (
            mul_nonneg (seconds (pos t)) rate low (NonNeg-div n 60 (omega arith) (omega arith)) high
              (rate-finite n (omega arith))))

    pub NonNeg-cap : (n : ℕ) (x : F) → NonNeg x → NonNeg (cap_tokens (pos n) x)
    unfolding cap_tokens
    NonNeg-cap n x h = elim (Bool-cases (d.lt (d.of_int (pos n)) x)) [
      | inl over ↦ rw over (Laws.NonNeg-of_int laws n)
      | inr under ↦ rw under h
    ]

    find_bucket-IsSound :
        (created now n : ℕ) (tenant : String) (tb : TokenBucket F)
        → created ≤ now
        → IsValid now tb
        → IsSound now (find_bucket created (pos n) (lookup tenant tb.buckets))
    unfolding find_bucket initial_tokens
    find_bucket-IsSound created now n tenant tb h v =
        elim (Option-cases (lookup tenant tb.buckets)) [
          | inl e ↦ rw e (record { tokens_low = first; past = h })
          | inr (b, e) ↦ rw e (v tenant b e)
        ]
      where
        tenth : F
        tenth = d.div (d.of_int (pos n)) (d.ratio 10 1)

        first : NonNeg {F = F} (initial_tokens (pos n))
        first = elim (Bool-cases (d.lt tenth one_float)) [
          | inl small ↦ rw small (Laws.IsUnit-one laws).0
          | inr large ↦ rw large (NonNeg-div n 10 (omega arith) (omega arith))
        ]

    pub NonNeg-available :
        (created now n : ℕ) (tenant : String) (tb : TokenBucket F)
        → created ≤ now
        → now < 2 ^ 63
        → n < 2 ^ 63
        → IsValid now tb
        → NonNeg (available created now tenant (pos n) tb)
    unfolding available refill
    NonNeg-available created now n tenant tb c h k v =
        let found = find_bucket created (pos n) (lookup tenant tb.buckets) in
        NonNeg-cap n (grown now (pos n) found)
          (NonNeg-grown now n found h k (find_bucket-IsSound created now n tenant tb c v))

    pub NonNeg-decide : (limit : ℤ) (x : F) → NonNeg x → NonNeg (decide limit x).0
    unfolding decide
    NonNeg-decide limit x h = elim (Bool-cases (d.le one_float x)) [
      | inl full ↦ rw full (sub_unit x full).0
      | inr short ↦ rw short h
    ]

    -- With a limit of `n` below 2 ^ 63 and clock readings in order and below 2 ^ 63, a call keeps
    -- every bucket of the limiter sound: no tokens below zero, no time later than the call.
    pub allow-IsValid :
        (created now n : ℕ) (tenant : String) (tb : TokenBucket F)
        → created ≤ now
        → now < 2 ^ 63
        → n < 2 ^ 63
        → IsValid now tb
        → IsValid now (allow created now tenant (pos n) tb).0
    allow-IsValid created now n tenant tb c h k v q b e =
        let x = available created now tenant (pos n) tb in
        let found = (allow_lem created now tenant q (pos n) tb).1 in
        elim (Bool-cases (tenant == q)) [
          | inl hit ↦
              let same = some-injective _ _ (sym e ∙ (rw hit at found)) in
              rw same (record {
                tokens_low =
                    NonNeg-decide (pos n) x (NonNeg-available created now n tenant tb c h k v);
                past = le_refl now;
              })
          | inr miss ↦ v q b (sym (rw miss at found) ∙ e)
        ]

    pub full_of_allowed : (limit : ℤ) (x : F) → (decide limit x).1.allowed ≡ true → one_float ≼ x
    unfolding decide
    full_of_allowed limit x e = ground (arith, Bool-cases (d.le one_float x))

    decide-granted :
        (n : ℕ) (x : F)
        → x ≼ d.of_int (pos n)
        → n ≤ 2 ^ 53
        → one_float ≼ x
        → let result = (decide (pos n) x).1 in
          (pos 0 ≤ℤ result.remaining) × (result.remaining ≤ℤ pos n)
    unfolding decide
    decide-granted n x h k full =
        let (low, less) = sub_unit x full in
        rw full (trunc_bounds (d.sub x one_float) n low (le_trans _ _ _ less h) k)

    -- With a limit from 0 to 2 ^ 53, a call that lets the tenant through has found at least one
    -- token and at most the limit, and reports from 0 to the limit as remaining.
    pub allow_granted :
        (created now n : ℕ) (tenant : String) (tb : TokenBucket F)
        → n ≤ 2 ^ 53
        → (allow created now tenant (pos n) tb).1.allowed ≡ true
        → let (tb', answer) = allow created now tenant (pos n) tb in
          let x = available created now tenant (pos n) tb in
          (one_float ≼ x)
          × (x ≼ d.of_int (pos n))
          × (pos 0 ≤ℤ answer.remaining)
          × (answer.remaining ≤ℤ pos n)
    allow_granted created now n tenant tb k e =
        let x = available created now tenant (pos n) tb in
        let answered = (allow_lem created now tenant tenant (pos n) tb).0 in
        let full = full_of_allowed (pos n) x (rw answered at e) in
        let fits = available-le laws created now tenant (pos n) tb full in
        let (low, high) = decide-granted n x fits k full in
        (full, fits, rw answered low, rw answered high)
