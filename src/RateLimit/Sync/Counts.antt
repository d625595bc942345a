-- ===== src/RateLimit/Sync/Counts.antt =====
-- internal/ratelimit/ratelimit.go: what the ticks of `backgroundSync` count, and that no call sees
-- them.
use mathlib.Core.Path.{subst}
use mathlib.Core.Option
use mathlib.Core.List.{append-nil}
use text.Mathlib.TextLemmas.{append_cancel_left}
use native.Mathlib.Nat.{zero-add, suc-add, add_comm}
use kenbun.Prelude.{
  ℕ, zero, suc, ◌+◌, ◌<◌, String, true, Option, none, some, List, [], ◌∷◌, ◌++◌, map, length, ◌≡◌,
  refl, sym, ◌∙◌, ap, if◌then◌else◌, ◌==◌, arith, eq_iff, inl, inr, Bool-cases,
}
use kenbun.Prelude.Map.{Map, lookup}
use kenbun.Float.{Float, one_float}
use kenbun.RateLimit.{LocalBucket, TokenBucket, allow}
use kenbun.Budget.Pending.{Distinct}
use kenbun.Budget.Ledger.{IsIteration}
use kenbun.RateLimit.Sync.{
  Redis, usage_key, argument, keys_of, snapshot_of, keys_of, run_script, script_args, sync_snapshot,
  background_sync, Turn, call, sync, calls, run_turns,
}

-- What is relied on of `INCRBYFLOAT` and `EXPIRE`: the one adds to its own key and answers the sum,
-- the other changes no value at the time that it is given.
pub record IsRedis {R F : Type 0} ⦃d : Float F⦄ (redis : Redis R F) (count : String → R → F)
    : Type 0 where
  pub adds :
      (key q : String) (x : F) (r : R)
      → count q (redis.incr_by_float key x r).0
        ≡ (if key == q then d.add (count q r) x else count q r)
  pub keeps :
      (key q : String) (seconds : ℕ) (r : R) → count q (redis.expire key seconds r) ≡ count q r

module _ {A : Type 0} where
  argument-first :
      {B : Type 0} (x : A) (keys : List B) (more : List A) (i : ℕ)
      → i < length keys
      → argument (map (λ k. x) keys ++ more) i ≡ some x
  argument-first x [] more i h = absurd (omega (arith, h))
  argument-first x (k ∷ keys) more zero h = refl
  argument-first x (k ∷ keys) more (suc i) h = argument-first x keys more i (omega arith)

  argument-second :
      {B : Type 0} (x : A) (keys : List B) (more : List A) (i : ℕ)
      → argument (map (λ k. x) keys ++ more) (length keys + i) ≡ argument more i
  argument-second x [] more i = ap (argument more) (zero-add i)
  argument-second x (k ∷ keys) more i =
      ap (argument (x ∷ map (λ j. x) keys ++ more)) (suc-add (length keys) i)
      ∙ argument-second x keys more i

abbrev pub bumped : {V F : Type 0} → ⦃d : Float F⦄ → Option V → F → F
bumped none n = n
bumped ⦃d = d⦄ (some v) n = d.add n one_float

usage_key-eq : (a b : String) → (usage_key a == usage_key b) ≡ (a == b)
usage_key-eq a b = elim (Bool-cases (a == b)) [
  | inl same ↦
      (eq_iff (usage_key a) (usage_key b)).1 (ap usage_key ((eq_iff a b).0 same)) ∙ sym same
  | inr other ↦ elim (Bool-cases (usage_key a == usage_key b)) [
    | inl e ↦
        e
        ∙ sym (
            (eq_iff a b).1
              (append_cancel_left "rl:usage:" a b ((eq_iff (usage_key a) (usage_key b)).0 e)))
    | inr e ↦ e ∙ sym other
  ]
]

bumped-cons :
    {F : Type 0}
    → ⦃d : Float F⦄ → (id q : String) (tokens : F) (m : Map F) (before now : F) → lookup id m ≡ none
    → now ≡ (if id == q then d.add before one_float else before)
    → bumped (lookup q m) now ≡ bumped (lookup q ((id, tokens) ∷ m)) before
unfolding lookup
bumped-cons id q tokens m before now new e = elim (Bool-cases (id == q)) [
  | inl hit ↦
      let gone : lookup q m ≡ none = subst (λ k. lookup k m ≡ none) ((eq_iff id q).0 hit) new in
      rw (gone, hit) (rw hit at e)
  | inr miss ↦ rw miss (ap (bumped (lookup q m)) (rw miss at e))
]

module _ {R F : Type 0} ⦃d : Float F⦄ (redis : Redis R F) (count : String → R → F)
    (commands : IsRedis redis count) where
  run_script-counts :
      (n i : ℕ) (m : Map F) (args : List F) (r : R) (q : String)
      → ((j : ℕ) → j < n → argument args j ≡ some one_float)
      → ((j : ℕ) → j < n → argument args (j + n) ≡ some (d.ratio 1000 1))
      → i + length (keys_of m) ≡ n
      → Distinct m
      → count (usage_key q) (run_script redis n i (keys_of m) args r).0
        ≡ bumped (lookup q m) (count (usage_key q) r)
  unfolding run_script lookup
  run_script-counts n i [] args r q ones limits e h = refl
  run_script-counts n i ((id, tokens) ∷ m) args r q ones limits e (new, rest) =
      let key = usage_key id in
      let raised = (redis.incr_by_float key one_float r).0 in
      let later = redis.expire key 60 raised in
      let rest_counts = run_script-counts n (i + 1) m args later q ones limits (omega arith) rest in
      let now =
        commands.keeps key (usage_key q) 60 raised ∙ commands.adds key (usage_key q) one_float r in
      rw (run_script, ones i (omega arith), limits i (omega arith))
        (rest_counts
          ∙ bumped-cons id q tokens m (count (usage_key q) r) _ new (
              now
              ∙ ap
                  (λ b.
                    if b then d.add (count (usage_key q) r) one_float else count (usage_key q) r)
                  (usage_key-eq id q)))

module _ {F : Type 0} where
  lookup-snapshot_of :
      (q : String) (m : Map (LocalBucket F))
      → lookup q (snapshot_of m) ≡ Option.map (λ b. b.tokens) (lookup q m)
  unfolding lookup
  lookup-snapshot_of q [] = refl
  lookup-snapshot_of q ((id, b) ∷ m) = elim (Bool-cases (id == q)) [
    | inl hit ↦ rw hit refl
    | inr miss ↦ rw miss (lookup-snapshot_of q m)
  ]

  Distinct-snapshot_of : (m : Map (LocalBucket F)) → Distinct m → Distinct (snapshot_of m)
  Distinct-snapshot_of [] h = tt
  Distinct-snapshot_of ((id, b) ∷ m) (new, rest) =
      (lookup-snapshot_of id m ∙ ap (Option.map (λ c. c.tokens)) new, Distinct-snapshot_of m rest)

  bumped-map :
      ⦃d : Float F⦄
      → (o : Option (LocalBucket F)) (n : F) → bumped (Option.map (λ b. b.tokens) o) n ≡ bumped o n
  bumped-map none n = refl
  bumped-map (some b) n = refl

module _ {R F : Type 0} ⦃d : Float F⦄ (redis : Redis R F) (count : String → R → F)
    (order : Map F → Map F) where
  script_args-ones :
      (m : Map F) (j : ℕ)
      → j < length (keys_of m)
      → argument (script_args redis (keys_of m)) j ≡ some one_float
  script_args-ones m j h = argument-first one_float (keys_of m) _ j h

  script_args-limits :
      (m : Map F) (j : ℕ)
      → j < length (keys_of m)
      → argument (script_args redis (keys_of m)) (j + length (keys_of m)) ≡ some (d.ratio 1000 1)
  script_args-limits m j h =
      ap (argument (script_args redis (keys_of m))) (add_comm j (length (keys_of m)))
      ∙ argument-second one_float (keys_of m) _ j
      ∙ ap (λ l. argument l j) (sym (append-nil (map (λ k. d.ratio 1000 1) (keys_of m))))
      ∙ argument-first (d.ratio 1000 1) (keys_of m) [] j h

  sync_snapshot-counts :
      (commands : IsRedis redis count) (iteration : IsIteration order) (m : Map F) (r : R)
      (q : String)
      → Distinct m
      → count (usage_key q) (sync_snapshot redis order true m r)
        ≡ bumped (lookup q m) (count (usage_key q) r)
  unfolding sync_snapshot lookup
  sync_snapshot-counts commands iteration [] r q h = refl
  sync_snapshot-counts commands iteration (e ∷ m) r q h =
      let m' = order (e ∷ m) in
      run_script-counts redis count commands (length (keys_of m')) 0 m'
        (script_args redis (keys_of m')) r q (script_args-ones m') (script_args-limits m')
        (zero-add (length (keys_of m'))) (iteration.once (e ∷ m) h)
      ∙ ap (λ o. bumped o (count (usage_key q) r)) (iteration.same q (e ∷ m))

  -- A tick that reaches Redis leaves the buckets as they are and adds exactly one to the usage
  -- counter of every tenant that has a bucket, whatever it has used since the last tick, and
  -- nothing to any other counter of a tenant.
  pub background_sync-counts :
      (commands : IsRedis redis count) (iteration : IsIteration order) (tb : TokenBucket F) (r : R)
      (q : String)
      → Distinct tb.buckets
      → let (tb', r') = background_sync redis order true tb r in
        (tb' ≡ tb) × (count (usage_key q) r' ≡ bumped (lookup q tb.buckets) (count (usage_key q) r))
  unfolding background_sync
  background_sync-counts commands iteration tb r q h = (
    refl,
    sync_snapshot-counts commands iteration (snapshot_of tb.buckets) r q
          (Distinct-snapshot_of tb.buckets h)
        ∙ ap (λ o. bumped o (count (usage_key q) r)) (lookup-snapshot_of q tb.buckets)
        ∙ bumped-map (lookup q tb.buckets) (count (usage_key q) r),
  )

module _ {R F : Type 0} ⦃d : Float F⦄ (redis : Redis R F) (order : Map F → Map F) where
  -- Whatever ticks come between the calls, whether or not they reach Redis and whatever Redis
  -- holds, the buckets and the answers are those of the calls alone.
  pub syncs-inert :
      (turns : List Turn) (tb : TokenBucket F) (r s : R)
      → let (tb1, r1, answers1) = run_turns redis order turns tb r in
        let (tb2, r2, answers2) = run_turns redis order (calls turns) tb s in
        (tb1 ≡ tb2) × (answers1 ≡ answers2)
  unfolding run_turns background_sync
  syncs-inert [] tb r s = (refl, refl)
  syncs-inert (call created now tenant limit ∷ turns) tb r s =
      let (tb', answer) = allow created now tenant limit tb in
      let (same, answers) = syncs-inert turns tb' r s in (same, ap (λ l. answer ∷ l) answers)
  syncs-inert (sync reached ∷ turns) tb r s = syncs-inert turns tb _ s
