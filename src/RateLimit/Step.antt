-- ===== src/RateLimit/Step.antt =====
-- One call of `Allow`: whom it affects, and the limits under which nobody is let through.
use kenbun.Prelude.{
  ℕ, String, ◌≡◌, refl, Bool-cases, inl, inr, false, some, ℤ, pos, ◌≤ℤ◌, if◌then◌else◌, ◌==◌, arith,
  ◌∙◌,
}
use kenbun.Prelude.Map.{lookup, lookup-insert}
use kenbun.Float.{Float, IsIeee, ◌≼◌, ◌≺◌, one_float}
use kenbun.RateLimit.{
  LocalBucket, TokenBucket, find_bucket, refill, grown, cap_tokens, nanos, decide, allow,
}

module _ {F : Type 0} ⦃d : Float F⦄ where
  -- the tokens that a call finds after its refill
  unfoldable pub available : ℕ → ℕ → String → ℤ → TokenBucket F → F
  available created now tenant limit tb =
      refill now limit (find_bucket created limit (lookup tenant tb.buckets))

  -- A call stores what is left of the tenant's tokens under the time of the call, leaves the bucket
  -- of every other tenant as it was, and answers from the tokens after the refill alone.
  pub allow_lem :
      (created now : ℕ) (tenant q : String) (limit : ℤ) (tb : TokenBucket F)
      → let (tokens, result) = decide limit (available created now tenant limit tb) in
        let (tb', answer) = allow created now tenant limit tb in
        (answer ≡ result)
        × (lookup q tb'.buckets ≡ (
            if tenant == q
            then some (record { tokens = tokens; last = now })
            else lookup q tb.buckets))
  unfolding allow available
  allow_lem created now tenant q limit tb = (refl, lookup-insert tenant q _ tb.buckets)

  module _ (laws : IsIeee F) where
    open laws use {
      le_trans, of_int_mono, of_int_pos, not_lt_of_le, le_of_not_lt, refl_of_le, ratio_lt,
    }

    cap_tokens-le :
        (limit : ℤ) (x : F) → one_float ≼ cap_tokens limit x → cap_tokens limit x ≼ d.of_int limit
    unfolding cap_tokens
    cap_tokens-le limit x h =
        let top = d.of_int limit in
        let number = of_int_mono limit limit (omega arith) in
        elim (Bool-cases (d.lt top x)) [
          | inl over ↦ rw over number
          | inr under ↦
              rw under (le_of_not_lt x top (refl_of_le one_float x (rw under at h)).1 number under)
        ]

    -- A full token after the refill means that the limit is at least one.
    pub refill-le :
        (now : ℕ) (limit : ℤ) (b : LocalBucket F)
        → one_float ≼ refill now limit b
        → refill now limit b ≼ d.of_int limit
    unfolding refill
    refill-le now limit b = cap_tokens-le limit (grown now limit b)

    pub available-le :
        (created now : ℕ) (tenant : String) (limit : ℤ) (tb : TokenBucket F)
        → one_float ≼ available created now tenant limit tb
        → available created now tenant limit tb ≼ d.of_int limit
    unfolding available
    available-le created now tenant limit tb =
        refill-le now limit (find_bucket created limit (lookup tenant tb.buckets))

    not-full : (limit : ℤ) (x : F) → limit ≤ℤ pos 0 → x ≼ d.of_int limit → d.le one_float x ≡ false
    not-full limit x h k = elim (Bool-cases (d.le one_float x)) [
      | inl full ↦
          let low = le_trans _ _ _ (le_trans _ _ _ full k) (of_int_mono limit (pos 0) h) in
          let strict : d.of_int (pos 0) ≺ one_float =
            rw (of_int_pos 0) (ratio_lt 0 1 (omega arith) (omega arith)) in
          absurd (ground (arith, not_lt_of_le _ _ low, strict))
      | inr short ↦ short
    ]

    -- A limit of zero or less lets nobody through, in any state: the answer is a refusal.
    pub no_limit_refused :
        (created now : ℕ) (tenant : String) (limit : ℤ) (tb : TokenBucket F)
        → limit ≤ℤ pos 0
        → (allow created now tenant limit tb).1
          ≡ record { allowed = false; limit = limit; remaining = pos 0; retry_after = nanos }
    unfolding decide available
    no_limit_refused created now tenant limit tb h =
        let found = find_bucket created limit (lookup tenant tb.buckets) in
        let x = refill now limit found in
        elim (Bool-cases (d.le one_float x)) [
          | inl full ↦
              absurd (ground (arith, not-full limit x h (refill-le now limit found full), full))
          | inr short ↦ (allow_lem created now tenant tenant limit tb).0 ∙ (rw short)
        ]
