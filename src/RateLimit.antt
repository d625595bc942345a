-- ===== src/RateLimit.antt =====
-- internal/ratelimit/ratelimit.go: the local token buckets. `Allow` holds the lock over its whole
-- body, so a call is one step; `created` and `now` are its two readings of the clock, in
-- nanoseconds.
pub mod Step
pub mod Bounds
pub mod Burst
pub mod Sync
use kenbun.Prelude.{
  ℕ, ◌+◌, ◌^◌, String, Bool, true, false, Option, none, some, [], ℤ, pos, sub_ℕ, quot, rem,
  if◌then◌else◌,
}
use kenbun.Prelude.Map.{Map, lookup, insert}
use kenbun.Float.{Float, zero_float, one_float}

-- `ResetAt` is never set.
pub record Result : Type 0 where
  pub allowed : Bool
  pub limit : ℤ
  pub remaining : ℤ
  pub retry_after : ℕ

pub record LocalBucket (F : Type 0) : Type 0 where
  pub tokens : F
  pub last : ℕ

pub record TokenBucket (F : Type 0) : Type 0 where
  pub buckets : Map (LocalBucket F)

abbrev pub nanos : ℕ
nanos = 10 ^ 9

module _ {F : Type 0} ⦃d : Float F⦄ where
  open d use {ratio, add, sub, mul, div, lt, le, of_int, trunc}

  unfoldable pub new_token_bucket : TokenBucket F
  new_token_bucket = record { buckets = [] }

  -- `Duration.Seconds`
  unfoldable pub seconds : ℤ → F
  seconds t = add (of_int (quot t nanos)) (div (of_int (rem t nanos)) (ratio nanos 1))

  unfoldable pub initial_tokens : ℤ → F
  initial_tokens limit =
      let tokens = div (of_int limit) (ratio 10 1) in
      if lt tokens one_float then one_float else tokens

  unfoldable pub find_bucket : ℕ → ℤ → Option (LocalBucket F) → LocalBucket F
  unfolding initial_tokens
  find_bucket created limit (some bucket) = bucket
  find_bucket created limit none = record { tokens = initial_tokens limit; last = created }

  -- what the refill adds up to, by the time since the last call
  unfoldable pub grown : ℕ → ℤ → LocalBucket F → F
  unfolding seconds
  grown now limit bucket =
      let rate = div (of_int limit) (ratio 60 1) in
      add bucket.tokens (mul (seconds (sub_ℕ now bucket.last)) rate)

  unfoldable pub cap_tokens : ℤ → F → F
  cap_tokens limit tokens = if lt (of_int limit) tokens then of_int limit else tokens

  -- The refill, up to the limit.
  unfoldable pub refill : ℕ → ℤ → LocalBucket F → F
  refill now limit bucket = cap_tokens limit (grown now limit bucket)

  unfoldable pub decide : ℤ → F → F × Result
  decide limit tokens =
      if le one_float tokens
      then (let left = sub tokens one_float in
          (left, record { allowed = true; limit = limit; remaining = trunc left; retry_after = 0 }))
      else (
        tokens,
        record { allowed = false; limit = limit; remaining = pos 0; retry_after = nanos },
      )

  unfoldable pub allow : ℕ → ℕ → String → ℤ → TokenBucket F → TokenBucket F × Result
  unfolding find_bucket refill decide
  allow created now tenant limit tb =
      let bucket = find_bucket created limit (lookup tenant tb.buckets) in
      let (tokens, result) = decide limit (refill now limit bucket) in
      (
        record { buckets = insert tenant (record { tokens = tokens; last = now }) tb.buckets },
        result,
      )
