-- ===== src/RateLimit/Sync.antt =====
-- internal/ratelimit/ratelimit.go: one tick of `backgroundSync` with its Lua script. Redis is a
-- parameter, as are the order in which Go ranges over a map and whether the script could be run.
pub mod Counts
use Prim.Native.String.{◌++◌ as text_append}
use kenbun.Prelude.{
  ℕ, zero, suc, ◌+◌, String, Bool, true, false, Option, none, some, List, [], ◌∷◌, ◌++◌, map,
  length, ℤ,
}
use kenbun.Prelude.Map.{Map}
use kenbun.Float.{Float, one_float}
use kenbun.RateLimit.{LocalBucket, TokenBucket, Result, allow}

-- the two commands of the script, over the state of Redis
pub record Redis (R F : Type 0) : Type 0 where
  pub incr_by_float : String → F → R → R × F
  pub expire : String → ℕ → R → R

abbrev pub usage_key : String → String
usage_key tenant = text_append "rl:usage:" tenant

-- `ARGV[i]`, from zero here
abbrev pub argument : {F : Type 0} → List F → ℕ → Option F
argument [] i = none
argument (x ∷ args) zero = some x
argument (x ∷ args) (suc i) = argument args i

-- what the snapshot of a bucket holds
abbrev pub snapshot_of : {F : Type 0} → Map (LocalBucket F) → Map F
snapshot_of [] = []
snapshot_of ((id, bucket) ∷ buckets) = (id, bucket.tokens) ∷ snapshot_of buckets

abbrev pub keys_of : {V : Type 0} → Map V → List String
keys_of [] = []
keys_of ((id, v) ∷ m) = id ∷ keys_of m

module _ {R F : Type 0} ⦃d : Float F⦄ (redis : Redis R F) where
  -- The loop of the script from its index `i`, of `n` keys. A missing argument is a Lua error,
  -- which ends the script and keeps what was done.
  unfoldable pub run_script : ℕ → ℕ → List String → List F → R → R × List F
  run_script n i [] args r = (r, [])
  run_script n i (tenant ∷ keys) args r = elim (argument args i) [
    | none ↦ (r, [])
    | some usage ↦ elim (argument args (i + n)) [
      | none ↦ (r, [])
      | some limit ↦
          let (r', current) = redis.incr_by_float (usage_key tenant) usage r in
          let (r2, results) =
            run_script n (i + 1) keys args (redis.expire (usage_key tenant) 60 r') in
          (r2, d.sub limit current ∷ results)
    ]
  ]

  -- `args`: a one for every key, then a thousand for every key
  abbrev pub script_args : List String → List F
  script_args keys = map (λ k. one_float) keys ++ map (λ k. d.ratio 1000 1) keys

  module _ (order : Map F → Map F) where
    -- What a tick does with its snapshot; the results of the script are dropped.
    unfoldable pub sync_snapshot : Bool → Map F → R → R
    unfolding run_script
    sync_snapshot reached [] r = r
    sync_snapshot false (e ∷ snapshot) r = r
    sync_snapshot true (e ∷ snapshot) r =
        let keys = keys_of (order (e ∷ snapshot)) in
        (run_script (length keys) 0 keys (script_args keys) r).0

    unfoldable pub background_sync : Bool → TokenBucket F → R → TokenBucket F × R
    unfolding sync_snapshot
    background_sync reached tb r = (tb, sync_snapshot reached (snapshot_of tb.buckets) r)

-- what happens to the limiter: a call, or a tick
pub data Turn : Type 0 where
  call : ℕ → ℕ → String → ℤ → Turn
  sync : Bool → Turn

abbrev pub calls : List Turn → List Turn
calls [] = []
calls (call created now tenant limit ∷ turns) = call created now tenant limit ∷ calls turns
calls (sync reached ∷ turns) = calls turns

module _ {R F : Type 0} ⦃d : Float F⦄ (redis : Redis R F) (order : Map F → Map F) where
  -- The limiter and Redis after some turns, with the answers of the calls.
  unfoldable pub run_turns : List Turn → TokenBucket F → R → TokenBucket F × R × List Result
  unfolding allow background_sync
  run_turns [] tb r = (tb, r, [])
  run_turns (call created now tenant limit ∷ turns) tb r =
      let (tb', answer) = allow created now tenant limit tb in
      let (tb2, r', answers) = run_turns turns tb' r in (tb2, r', answer ∷ answers)
  run_turns (sync reached ∷ turns) tb r =
      let (tb', r') = background_sync redis order reached tb r in run_turns turns tb' r'
