-- ===== src/Cache/Coherence.antt =====
-- What a reader of the two tiers can get. The stores may drop an entry or a write, apply a write
-- late, or come back with an older value; what is relied on is that they do not make values up.
use mathlib.Core.Path.{subst}
use kenbun.Prelude.{ℕ, ◌≡◌, refl, ap, ◌∙◌, ◌⊎◌, String, Option, none, some, inl, inr, List, [], ◌∷◌}
use kenbun.Provider.{Outcome, ok, err}
use kenbun.Cache.{
  Local, Remote, TwoTier, backfill, backfill_ttl, two_tier_find, two_tier_get, two_tier_set,
}

-- `Holds l k v`: the store, or a write that it has not applied yet, has the value for the key.
-- Only such values are found, and a write brings in its own value under its own key only.
pub record IsLocal {L B : Type 0} (local : Local L B) : Type 1 where
  pub Holds : L → String → B → Type 0
  pub find-held : (t : ℕ) (k : String) (v : B) (l : L) → local.find t k l ≡ some v → Holds l k v
  pub put-held :
      (now : ℕ) (k j : String) (v w : B) (ttl : ℕ) (l : L)
      → Holds (local.put now k v ttl l) j w
      → ((k ≡ j) × (v ≡ w)) ⊎ Holds l j w

-- The same of Redis, whether a write reports an error or not.
pub record IsRemote {R B X : Type 0} (remote : Remote R B X) : Type 1 where
  pub Holds : R → String → B → Type 0
  pub find-held :
      (t : ℕ) (k : String) (v : B) (r : R) → remote.find t k r ≡ ok (some v) → Holds r k v
  pub put-held :
      (now : ℕ) (k j : String) (v w : B) (ttl : ℕ) (r : R)
      → Holds (remote.put now k v ttl r).0 j w
      → ((k ≡ j) × (v ≡ w)) ⊎ Holds r j w

pub data CacheCall (B : Type 0) : Type 0 where
  get : ℕ → String → CacheCall B
  set : ℕ → String → B → ℕ → CacheCall B

-- The call writes the value for the key.
abbrev pub Writes : {B : Type 0} → String → B → CacheCall B → Type 0
Writes k v (get now j) = ⊥
Writes k v (set now j w ttl) = (j ≡ k) × (w ≡ v)

-- One of the calls does.
abbrev pub Written : {B : Type 0} → String → B → List (CacheCall B) → Type 0
Written k v [] = ⊥
Written k v (a ∷ calls) = Writes k v a ⊎ Written k v calls

module _ {L R B X : Type 0} (local : Local L B) (remote : Remote R B X) where
  unfoldable pub step : CacheCall B → TwoTier L R → TwoTier L R
  step (get now k) c = (two_tier_get local remote now k c).0
  step (set now k v ttl) c = (two_tier_set local remote now k v ttl c).0

  unfoldable pub run : List (CacheCall B) → TwoTier L R → TwoTier L R
  unfolding step
  run [] c = c
  run (a ∷ calls) c = run calls (step a c)

  module _ (llaws : IsLocal local) (rlaws : IsRemote remote) where
    -- one of the tiers has the value for the key
    abbrev pub Held : String → B → TwoTier L R → Type 0
    Held k v c = llaws.Holds c.l1 k v ⊎ rlaws.Holds c.redis k v

    find-Held :
        (now : ℕ) (k j : String) (v : B) (c : TwoTier L R) (o : Option B)
        → Held k v (two_tier_find local remote now j c o).0
        → Held k v c
    unfolding two_tier_find
    find-Held now k j v c (some w) h = h
    find-Held now k j v c none h = go (remote.find now j c.redis) refl h
      where
        near :
            (w : B)
            → remote.find now j c.redis ≡ ok (some w)
            → ((j ≡ k) × (w ≡ v)) ⊎ llaws.Holds c.l1 k v
            → Held k v c
        near w e (inl (here, same)) = inr (
            subst (λ q. rlaws.Holds c.redis q v) here
              (rlaws.find-held now j v c.redis (e ∙ ap (λ u. ok (some u)) same)))
        near w e (inr old) = inl old

        go :
            (o : Outcome X (Option B))
            → remote.find now j c.redis ≡ o
            → Held k v (backfill local remote now j c o).0
            → Held k v c
        go (ok none) e h = h
        go (err x) e h = h
        go (ok (some w)) e (inl new) = near w e (llaws.put-held now j k w v backfill_ttl c.l1 new)
        go (ok (some w)) e (inr old) = inr old

    step-Held :
        (a : CacheCall B) (k : String) (v : B) (c : TwoTier L R)
        → Held k v (step a c)
        → Writes k v a ⊎ Held k v c
    unfolding step two_tier_get two_tier_set
    step-Held (get now j) k v c h = inr (find-Held now k j v c (local.find now j c.l1) h)
    step-Held (set now j w ttl) k v c (inl near) = elim (llaws.put-held now j k w v ttl c.l1 near) [
      | inl new ↦ inl new
      | inr old ↦ inr (inl old)
    ]
    step-Held (set now j w ttl) k v c (inr far) =
        elim (rlaws.put-held now j k w v ttl c.redis far) [
          | inl new ↦ inl new
          | inr old ↦ inr (inr old)
        ]

    run-Held :
        (calls : List (CacheCall B)) (k : String) (v : B) (c : TwoTier L R)
        → Held k v (run calls c)
        → Written k v calls ⊎ Held k v c
    unfolding run
    run-Held [] k v c h = inr h
    run-Held (a ∷ calls) k v c h = elim (run-Held calls k v (step a c) h) [
      | inl later ↦ inl (inr later)
      | inr here ↦ elim (step-Held a k v c here) [
        | inl now ↦ inl (inl now)
        | inr before ↦ inr before
      ]
    ]

    find-value :
        (now : ℕ) (k : String) (v : B) (c : TwoTier L R) (o : Option B)
        → local.find now k c.l1 ≡ o
        → (two_tier_find local remote now k c o).1 ≡ ok (some v)
        → Held k v c
    unfolding two_tier_find
    find-value now k v c (some u) e r = inl (llaws.find-held now k v c.l1 (e ∙ cc))
    find-value now k v c none e r = go (remote.find now k c.redis) refl r
      where
        go :
            (o : Outcome X (Option B))
            → remote.find now k c.redis ≡ o
            → (backfill local remote now k c o).1 ≡ ok (some v)
            → Held k v c
        go (ok none) f q = cc
        go (err x) f q = cc
        go (ok (some u)) f q = inr (rlaws.find-held now k v c.redis (f ∙ q))

    -- After any reads and writes, failed ones included, of two tiers that held nothing for a key, a
    -- read of the key returns only a value that one of the writes set for this key: no other key's
    -- value and none that was made up, also when the local tier is filled again from Redis.
    pub get-Written :
        (now : ℕ) (k : String) (v : B) (calls : List (CacheCall B)) (c : TwoTier L R)
        → ((u : B) → ¬ Held k u c)
        → (two_tier_get local remote now k (run calls c)).1 ≡ ok (some v)
        → Written k v calls
    unfolding two_tier_get
    get-Written now k v calls c empty r =
        let after = run calls c in
        let held = find-value now k v after (local.find now k after.l1) refl r in
        elim (run-Held calls k v c held) [
          | inl written ↦ written
          | inr before ↦ absurd (empty v before)
        ]
