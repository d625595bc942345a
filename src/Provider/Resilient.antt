-- ===== src/Provider/Resilient.antt =====
-- internal/provider/resilient.go: `Chat` with retries and exponential backoff. What the base
-- provider and the context do is a script, indexed by the attempt, since every attempt is made at
-- most once.
pub mod Attempts
pub mod Answers
pub mod Streaming
use kenbun.Prelude.{
  ℕ, zero, suc, ◌+◌, ◌*◌, ◌-◌, ◌^◌, String, Option, none, some, List, [], ◌∷◌, ◌++◌, ℤ, pos, negsuc,
  ltb, ltb_ℤ, wrap64, if◌then◌else◌,
}
use kenbun.Provider.{ChatResponse, Outcome, ok, err}

pub record Script (X : Type 0) : Type 0 where
  -- what the base provider answers to attempt `i`
  pub outcome : ℕ → Outcome X ChatResponse
  -- `ctx.Err()` after attempt `i`
  pub ctx_err : ℕ → Option X
  -- the wait after attempt `i`: `none` if the timer fires, the context's error if it is done first
  pub waited : ℕ → Option X

pub data Failure (X : Type 0) : Type 0 where
  plain : X → Failure X
  -- `provider %s failed after %d retries: %w`
  after_retries : String → ℤ → Option X → Failure X

-- What the loop does to the outside, in order.
pub data Action : Type 0 where
  attempt : ℕ → Action
  sleep : ℤ → Action

pub record ResilientProvider : Type 0 where
  pub base_name : String
  pub max_retries : ℤ
  pub retry_delay : ℕ

-- `NewResilientProvider`: 100 milliseconds
unfoldable pub new_resilient_provider : String → ℤ → ResilientProvider
new_resilient_provider base_name max_retries = record {
  base_name = base_name;
  max_retries = max_retries;
  retry_delay = 100000000;
}

-- `time.Duration(math.Pow(2, float64(i)))`: the power of two is exact, and the conversion to
-- `int64` of one that does not fit gives the least `int64`, as on amd64.
unfoldable pub pow2 : ℕ → ℤ
pow2 i = if ltb i 63 then pos (2 ^ i) else negsuc (2 ^ 63 - 1)

unfoldable pub scale : ℤ → ℕ → ℤ
scale (pos n) k = wrap64 (pos (n * k))
scale (negsuc n) zero = pos 0
scale (negsuc n) (suc k) = wrap64 (negsuc (suc n * suc k - 1))

unfoldable pub backoff : ResilientProvider → ℕ → ℤ
unfolding pow2 scale
backoff p i = scale (pow2 i) p.retry_delay

-- How often the loop header `i <= p.maxRetries` lets a round begin.
unfoldable pub rounds : ℤ → ℕ
rounds (pos n) = suc n
rounds (negsuc n) = 0

abbrev pub Run : Type 0 → Type 0
Run X = Outcome (Failure X) ChatResponse × List Action

module _ {X : Type 0} where
  abbrev pub after : List Action → Run X → Run X
  after done (result, more) = (result, done ++ more)

  -- The `select` between the timer and the context, before the next round.
  unfoldable pub pause : ResilientProvider → ℕ → Option X → Run X → Run X
  unfolding backoff
  pause p i none next = after (attempt i ∷ sleep (backoff p i) ∷ []) next
  pause p i (some c) next = (err (plain c), attempt i ∷ sleep (backoff p i) ∷ [])

  -- The body of the loop, on what attempt `i` brought; `next` is the loop from the next attempt on.
  unfoldable pub round :
      ResilientProvider → ℕ → Outcome X ChatResponse → Option X → Option X → (X → Run X) → Run X
  unfolding pause
  round p i (ok resp) ctx_err waited next = (ok resp, attempt i ∷ [])
  round p i (err x) (some _) waited next = (err (plain x), attempt i ∷ [])
  round p i (err x) none waited next =
      if ltb_ℤ (pos i) p.max_retries
      then pause p i waited (next x)
      else after (attempt i ∷ []) (next x)

  -- The loop from attempt `i` with `left` rounds to go and the last error so far.
  unfoldable pub chat_loop : ResilientProvider → Script X → ℕ → ℕ → Option X → Run X
  unfolding round
  chat_loop p s zero i last = (err (after_retries p.base_name p.max_retries last), [])
  chat_loop p s (suc left) i last =
      round p i (s.outcome i) (s.ctx_err i) (s.waited i) λ x. chat_loop p s left (suc i) (some x)

  unfoldable pub chat : ResilientProvider → Script X → Run X
  unfolding chat_loop rounds
  chat p s = chat_loop p s (rounds p.max_retries) 0 none
