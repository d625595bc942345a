-- ===== src/Cache.antt =====
-- internal/cache: the contract of a cache, the map behind a mutex, and the two tiers. The in-memory
-- tier (ristretto) and the Redis cluster are libraries: parameters with what the code relies on.
pub mod Coherence
use kenbun.Prelude.{ℕ, ◌+◌, ◌*◌, ◌^◌, ◌≤◌, ◌<◌, ◌≡◌, ◌≢◌, String, Option, none, some, []}
use kenbun.Prelude.Map.{Map, lookup, insert}
use kenbun.Provider.{Outcome, ok, err}

-- `Get` and `Set` at a clock reading. The values are byte slices; `ok none` is `nil, nil`.
pub record Cache (S B X : Type 0) : Type 0 where
  pub get : ℕ → String → S → S × Outcome X (Option B)
  pub set : ℕ → String → B → ℕ → S → S × Option X

abbrev pub MemoryCache : Type 0 → Type 0
MemoryCache B = Map B

unfoldable pub new_memory_cache : {B : Type 0} → MemoryCache B
new_memory_cache = []

module _ {B X : Type 0} where
  -- Nothing expires: the time to live is not read.
  unfoldable pub memory_get : ℕ → String → MemoryCache B → MemoryCache B × Outcome X (Option B)
  memory_get now key m = (m, ok (lookup key m))

  unfoldable pub memory_set : ℕ → String → B → ℕ → MemoryCache B → MemoryCache B × Option X
  memory_set now key value ttl m = (insert key value m, none)

  abbrev pub memory_cache : Cache (MemoryCache B) B X
  memory_cache = record { get = memory_get; set = memory_set }

-- Ristretto: `Get` and `SetWithTTL`. It may drop entries at any time.
pub record Local (L B : Type 0) : Type 0 where
  pub find : ℕ → String → L → Option B
  pub put : ℕ → String → B → ℕ → L → L

-- Redis: `GET`, with `ok none` for `redis.Nil`, and `SET` with a time to live.
pub record Remote (R B X : Type 0) : Type 0 where
  pub find : ℕ → String → R → Outcome X (Option B)
  pub put : ℕ → String → B → ℕ → R → R × Option X

pub record TwoTier (L R : Type 0) : Type 0 where
  pub l1 : L
  pub redis : R

-- `ristretto.Config`
pub record LocalConfig : Type 0 where
  pub num_counters : ℕ
  pub max_cost : ℕ
  pub buffer_items : ℕ

-- `NewTwoTierCache`, where the local tier can be made
unfoldable pub new_two_tier_cache :
    {L R X : Type 0} → (LocalConfig → Outcome X L) → R → Outcome X (TwoTier L R)
new_two_tier_cache make_local redis =
    elim (make_local (record { num_counters = 10 ^ 7; max_cost = 2 ^ 30; buffer_items = 64 })) [
      | ok l1 ↦ ok (record { l1 = l1; redis = redis })
      | err x ↦ err x
    ]

-- ten minutes, in nanoseconds
abbrev pub backfill_ttl : ℕ
backfill_ttl = 600 * 10 ^ 9

module _ {L R B X : Type 0} (local : Local L B) (remote : Remote R B X) where
  backfill : ℕ → String → TwoTier L R → Outcome X (Option B) → TwoTier L R × Outcome X (Option B)
  backfill now key c (ok none) = (c, ok none)
  backfill now key c (err x) = (c, err x)
  backfill now key c (ok (some v)) =
      (record c { l1 = local.put now key v backfill_ttl c.l1 }, ok (some v))

  two_tier_find : ℕ → String → TwoTier L R → Option B → TwoTier L R × Outcome X (Option B)
  unfolding backfill
  two_tier_find now key c (some v) = (c, ok (some v))
  two_tier_find now key c none = backfill now key c (remote.find now key c.redis)

  unfoldable pub two_tier_get : ℕ → String → TwoTier L R → TwoTier L R × Outcome X (Option B)
  unfolding two_tier_find
  two_tier_get now key c = two_tier_find now key c (local.find now key c.l1)

  unfoldable pub two_tier_set : ℕ → String → B → ℕ → TwoTier L R → TwoTier L R × Option X
  two_tier_set now key value ttl c =
      let (redis', e) = remote.put now key value ttl c.redis in
      (record { l1 = local.put now key value ttl c.l1; redis = redis' }, e)

  unfoldable pub two_tier_cache : Cache (TwoTier L R) B X
  unfolding two_tier_get two_tier_set
  two_tier_cache = record { get = two_tier_get; set = two_tier_set }
