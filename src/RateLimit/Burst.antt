-- ===== src/RateLimit/Burst.antt =====
-- How many calls of one tenant are let through at one instant, whatever the other tenants do.
use mathlib.Core.Path.{subst, subst₂}
use native.Mathlib.Decide.{dec_le}
use text.Mathlib.TextPositions.{eq_refl}
use kenbun.Prelude.{
  ℕ, ◌+◌, ◌^◌, ◌≤◌, ◌<◌, String, ◌≡◌, refl, sym, ap, Bool-cases, inl, inr, false, ◌&&◌, some, List,
  [], ◌∷◌, All, ℤ, pos, sub_ℕ, quot, rem, if◌then◌else◌, ◌==◌, arith, eq_iff,
}
use native.Mathlib.Nat.{zero-add, add_comm, le_refl}
use kenbun.Prelude.Map.{lookup}
use kenbun.Float.{Float, IsIeee, ◌≼◌, zero_float, one_float, NonNeg}
use kenbun.Float.Laws
use kenbun.RateLimit.{
  LocalBucket, TokenBucket, nanos, seconds, find_bucket, grown, cap_tokens, refill, decide, allow,
}
use kenbun.RateLimit.Step.{available, allow_lem, available-le}
use kenbun.RateLimit.Bounds.{
  IsValid, allow-IsValid, NonNeg-available, NonNeg-decide, rate-finite, NonNeg-div, seconds-bounds,
}

-- a call of a tenant with its limit
abbrev pub Request : Type 0
Request = String × ℕ

module _ {F : Type 0} ⦃d : Float F⦄ where
  -- How many of the calls of one tenant are let through, when all are made at the same reading.
  unfoldable pub granted : ℕ → String → List Request → TokenBucket F → ℕ
  granted now q [] tb = 0
  granted now q ((tenant, limit) ∷ rs) tb =
      let (tb', answer) = allow now now tenant (pos limit) tb in
      (if (tenant == q) && answer.allowed then 1 else 0) + granted now q rs tb'

  module _ (laws : IsIeee F) where
    open laws use {
      refl_of_le, le_trans, of_int_pos, of_int_mono, not_lt_of_le, div_le, add_mono, add_zero,
      mul_zero_left, unit_count, ratio_lt, ratio_mono, mul_nonneg, le_of_not_lt,
    }

    seconds-zero : seconds (pos 0) ≼ zero_float {F = F}
    unfolding seconds quot rem
    seconds-zero =
        let z : F = zero_float in
        let none_left = Laws.IsUnit-zero laws in
        let whole : d.of_int (pos 0) ≼ z = rw (of_int_pos 0) none_left.0 in
        let low = Laws.NonNeg-of_int laws 0 in
        let part =
          le_trans _ _ _ (div_le (d.of_int (pos 0)) nanos (omega arith) (omega arith) low) whole in
        le_trans _ _ _
          (add_mono (d.of_int (pos 0)) z (d.div (d.of_int (pos 0)) (d.ratio nanos 1)) z low
            (NonNeg-div laws 0 nanos (omega arith) (omega arith)) whole part)
          (add_zero z none_left.0).1

    grown-now :
        (now n : ℕ) (b : LocalBucket F)
        → n < 2 ^ 63
        → b.last ≡ now
        → NonNeg b.tokens
        → grown now (pos n) b ≼ b.tokens
    unfolding grown
    grown-now now n b k e h =
        let rate = d.div (d.of_int (pos n)) (d.ratio 60 1) in
        let s : F = seconds (pos 0) in
        let (low, high) = seconds-bounds laws 0 (omega arith) in
        let slow = NonNeg-div laws n 60 (omega arith) (omega arith) in
        let fin = rate-finite laws n (omega arith) in
        let same : sub_ℕ now b.last ≡ pos 0 = ground arith in
        rw (same, grown)
          (le_trans _ _ _
            (add_mono b.tokens b.tokens (d.mul s rate) zero_float h
              (mul_nonneg s rate low slow high fin) (refl_of_le _ _ h).1
              (mul_zero_left s rate low seconds-zero slow fin))
            (add_zero b.tokens h).1)

    cap_tokens-le_self : (limit : ℤ) (x : F) → x ≼ x → cap_tokens limit x ≼ x
    unfolding cap_tokens
    cap_tokens-le_self limit x h = elim (Bool-cases (d.lt (d.of_int limit) x)) [
      | inl over ↦ rw over (laws.le_of_lt _ _ over)
      | inr under ↦ rw under h
    ]

    -- Without time passing, a refill adds nothing.
    refill-now :
        (now n : ℕ) (b : LocalBucket F)
        → n < 2 ^ 63
        → b.last ≡ now
        → NonNeg b.tokens
        → refill now (pos n) b ≼ b.tokens
    unfolding refill
    refill-now now n b k e h =
        let less = grown-now now n b k e h in
        le_trans _ _ _ (cap_tokens-le_self (pos n) _ (refl_of_le _ _ less).0) less

    -- the tokens that the tenant's next call at this reading finds
    abbrev pool : ℕ → ℕ → String → TokenBucket F → F
    pool now n q tb = available now now q (pos n) tb

    pool-hit :
        (now n : ℕ) (q : String) (tb : TokenBucket F)
        → now < 2 ^ 63
        → n < 2 ^ 63
        → IsValid now tb
        → pool now n q (allow now now q (pos n) tb).0 ≼ (decide (pos n) (pool now n q tb)).0
    unfolding available find_bucket
    pool-hit now n q tb h k v =
        let x = available now now q (pos n) tb in
        let found = (allow_lem now now q q (pos n) tb).1 in
        let left : LocalBucket F = record { tokens = (decide (pos n) x).0; last = now } in
        let low =
          NonNeg-decide laws (pos n) x (NonNeg-available laws now now n q tb (le_refl now) h k v) in
        let stored : lookup q (allow now now q (pos n) tb).0.buckets ≡ some left =
          rw (eq_refl q) at found in
        subst (λ o. refill now (pos n) (find_bucket now (pos n) o) ≼ left.tokens) (sym stored)
          (refill-now now n left k refl low)

    pool-miss :
        (now n limit : ℕ) (tenant q : String) (tb : TokenBucket F)
        → (tenant == q) ≡ false
        → pool now n q (allow now now tenant (pos limit) tb).0 ≡ pool now n q tb
    unfolding available
    pool-miss now n limit tenant q tb e =
        let found = (allow_lem now now tenant q (pos limit) tb).1 in
        ap (λ o. refill now (pos n) (find_bucket now (pos n) o)) (rw e at found)

    -- one more call let through: the count still fits the limit
    count-step :
        (n c : ℕ) (x : F)
        → n ≤ 2 ^ 52
        → c ≤ n
        → one_float ≼ x
        → x ≼ d.of_int (pos n)
        → d.ratio c 1 ≼ d.sub x one_float
        → (c + 1 ≤ n) × (d.ratio (c + 1) 1 ≼ x)
    count-step n c x k l full top h =
        let more = unit_count x c full (omega arith) h in
        let all : d.ratio (c + 1) 1 ≼ d.ratio n 1 =
          le_trans _ _ _ more (rw (of_int_pos n) at top) in
        (
          elim (dec_le (c + 1) n) [
            | yes fits ↦ fits
            | no over ↦
                let strict = ratio_lt n (c + 1) (omega arith) (omega arith) in
                absurd (ground (arith, not_lt_of_le _ _ all, strict))
          ],
          more,
        )

    decide-count :
        (n c : ℕ) (x : F)
        → n ≤ 2 ^ 52
        → c ≤ n
        → (one_float ≼ x → x ≼ d.of_int (pos n))
        → d.ratio c 1 ≼ (decide (pos n) x).0
        → let g = (if (decide (pos n) x).1.allowed then 1 else 0) + c in (g ≤ n) × (d.ratio g 1 ≼ x)
    unfolding decide
    decide-count n c x k l top h = elim (Bool-cases (d.le one_float x)) [
      | inl full ↦ rw (full, add_comm 1 c) (count-step n c x k l full (top full) (rw full at h))
      | inr short ↦ rw (short, zero-add) (l, rw short at h)
    ]

    hit-count :
        (now n c : ℕ) (q : String) (tb : TokenBucket F)
        → now < 2 ^ 63
        → n ≤ 2 ^ 52
        → IsValid now tb
        → c ≤ n
        → d.ratio c 1 ≼ pool now n q (allow now now q (pos n) tb).0
        → let g = (if (allow now now q (pos n) tb).1.allowed then 1 else 0) + c in
          (g ≤ n) × (d.ratio g 1 ≼ pool now n q tb)
    hit-count now n c q tb h k v l p =
        let x = pool now n q tb in
        let left = le_trans _ _ _ p (pool-hit now n q tb h (omega arith) v) in
        rw ((allow_lem now now q q (pos n) tb).0)
          (decide-count n c x k l (available-le laws now now q (pos n) tb) left)

    -- what remains to be shown of a call of the tenant, with its name and its limit as variables
    abbrev Fits : ℕ → ℕ → String → ℕ → TokenBucket F → String → ℕ → Type 0
    Fits now n q c tb tenant limit =
        let (tb', answer) = allow now now tenant (pos limit) tb in
        (c ≤ n) × (d.ratio c 1 ≼ pool now n q tb')
        → let g = (if answer.allowed then 1 else 0) + c in (g ≤ n) × (d.ratio g 1 ≼ pool now n q tb)

    granted-pool :
        (now n : ℕ) (q : String) (rs : List Request) (tb : TokenBucket F)
        → now < 2 ^ 63
        → n ≤ 2 ^ 52
        → All (λ r. (r.1 < 2 ^ 63) × (r.0 ≡ q → r.1 ≡ n)) rs
        → IsValid now tb
        → (granted now q rs tb ≤ n) × (d.ratio (granted now q rs tb) 1 ≼ pool now n q tb)
    unfolding granted
    granted-pool now n q [] tb h k l v =
        (omega arith, NonNeg-available laws now now n q tb (le_refl now) h (omega arith) v)
    granted-pool now n q ((tenant, limit) ∷ rs) tb h k ((fits, same), ls) v =
        let tb' = (allow now now tenant (pos limit) tb).0 in
        let v' = allow-IsValid laws now now limit tenant tb (le_refl now) h fits v in
        let (count, left) = granted-pool now n q rs tb' h k ls v' in
        elim (Bool-cases (tenant == q)) [
          | inl hit ↦
              let e = (eq_iff tenant q).0 hit in
              let c = granted now q rs tb' in
              rw hit (
                subst₂ (Fits now n q c tb) (sym e) (sym (same e))
                  (λ (a, b). hit-count now n c q tb h k v a b) (count, left))
          | inr miss ↦
              rw (miss, zero-add) (count, rw (pool-miss now n limit tenant q tb miss) at left)
        ]

    -- At one reading of the clock below 2 ^ 63, and from any sound state, with `n` at most 2 ^ 52,
    -- a tenant whose calls all come with the limit `n` is let through at most `n` times, whatever
    -- calls of other tenants come between.
    pub granted-le :
        (now n : ℕ) (q : String) (rs : List Request) (tb : TokenBucket F)
        → now < 2 ^ 63
        → n ≤ 2 ^ 52
        → All (λ r. (r.1 < 2 ^ 63) × (r.0 ≡ q → r.1 ≡ n)) rs
        → IsValid now tb
        → granted now q rs tb ≤ n
    granted-le now n q rs tb h k l v = (granted-pool now n q rs tb h k l v).0
