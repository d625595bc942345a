-- ===== src/Selector/Choice.antt =====
-- The provider that `Select` returns.
use mathlib.Core.List.{
  Mem, Perm, Pairwise, Pairwise-cons, head?, mem-cons, mem-cons_self, not-mem-nil,
}
use mathlib.Core.List.Perm
use mathlib.Core.Logic.Or
use mathlib.Core.Bool.{Bool-set}
use mathlib.Core.Path.{ap₂}
use kenbun.Prelude.{
  ℕ, String, ◌≡◌, ◌↔◌, refl, sym, ◌∙◌, Bool, true, false, none, some, Bool-cases, inl, inr, List,
  [], ◌∷◌, keep, mem-keep, mem-keep_of_mem, keep-none, if◌then◌else◌,
}
use kenbun.Float.{Float, IsIeee, ◌≼◌, zero_float}
use kenbun.Float.Laws
use kenbun.Health.{EwmaMonitor}
use kenbun.Health.Bounds.{IsValid}
use kenbun.Health.Observe.{IsAlike, latency_of, NonNeg-latency_of, get_metrics-latency}
use kenbun.Selector.{get_latency, less, best, candidates, select}
use kenbun.Selector.Sort.{IsStrictWeak, IsSort}
use kenbun.Selector.Registry.{eligible, candidates-IsAlike, candidates-keep}

module _ {P : Type 0} (sort : (P → P → Bool) → List P → List P) (s : IsSort sort) where
  -- the first element of the sorted list: an element, and no element is less
  best-least :
      (cmp : P → P → Bool) (l : List P) {p : P}
      → IsStrictWeak cmp
      → best sort cmp l ≡ some p
      → Mem p l × ((q : P) → Mem q l → cmp q p ≡ false)
  unfolding best
  best-least cmp [] w e = cc
  best-least cmp (b ∷ l) {p} w e =
      go (sort cmp (b ∷ l)) (s.permutes cmp (b ∷ l)) (s.sorts cmp (b ∷ l) w) e
    where
      go :
          (r : List P)
          → Perm r (b ∷ l)
          → Pairwise (λ a b. cmp b a ≡ false) r
          → head? r ≡ some p
          → Mem p (b ∷ l) × ((q : P) → Mem q (b ∷ l) → cmp q p ≡ false)
      go [] perm sorted h = cc
      go (a ∷ r) perm sorted h =
          let same : a ≡ p = cc in
          (
            rw (← same) ((Perm.mem_iff perm).0 mem-cons_self),
            λ q m. rw (← same) (
                Or.elim (Bool-set _ _) (mem-cons.0 ((Perm.mem_iff perm).1 m))
                  (λ here. rw here (w.irrefl a)) ((Pairwise-cons.0 sorted).0 q)),
          )

  best-nil : (cmp : P → P → Bool) → best sort cmp [] ≡ none
  unfolding best
  best-nil cmp = refl

  best_none : (cmp : P → P → Bool) (l : List P) → best sort cmp l ≡ none → l ≡ []
  unfolding best
  best_none cmp [] e = refl
  best_none cmp (b ∷ l) e = absurd (go (sort cmp (b ∷ l)) (s.permutes cmp (b ∷ l)) e)
    where
      go : (r : List P) → Perm r (b ∷ l) → head? r ≡ none → ⊥
      go [] perm h = not-mem-nil ((Perm.mem_iff perm).1 mem-cons_self)
      go (a ∷ r) perm h = cc

module _ {F : Type 0} ⦃d : Float F⦄ where
  -- the latency by which a provider is ranked
  unfoldable pub ranking : String → EwmaMonitor F → F
  ranking q m = let l = latency_of q m in if d.eq l zero_float then d.max_float else l

  get_latency-ranking :
      (now : ℕ) (q : String) (m : EwmaMonitor F) → (get_latency now q m).1 ≡ ranking q m
  unfolding get_latency ranking
  get_latency-ranking now q m = rw (get_metrics-latency now q m)

  ranking-IsAlike : (n m : EwmaMonitor F) (q : String) → IsAlike n m → ranking q n ≡ ranking q m
  unfolding ranking
  ranking-IsAlike n m q a = rw (a.latencies q)

  module _ (laws : IsIeee F) {P : Type 0} (name : P → String) where
    open laws use {le_trans, refl_of_le, one_le_max}

    ranking-number : (q : String) (m : EwmaMonitor F) → IsValid m → ranking q m ≼ ranking q m
    unfolding ranking
    ranking-number q m v = elim (Bool-cases (d.eq (latency_of q m) zero_float)) [
      | inl h ↦ rw h (refl_of_le _ _ one_le_max).1
      | inr h ↦ rw h (refl_of_le _ _ (NonNeg-latency_of laws q m v)).1
    ]

    less-ranking :
        (now : ℕ) (n m : EwmaMonitor F) (p q : P)
        → IsAlike n m
        → less name now n p q ≡ d.lt (ranking (name p) m) (ranking (name q) m)
    unfolding less
    less-ranking now n m p q a =
        ap₂ d.lt (get_latency-ranking now (name p) n ∙ ranking-IsAlike n m (name p) a)
          (get_latency-ranking now (name q) n ∙ ranking-IsAlike n m (name q) a)

    -- The comparison is a strict weak order, as `sort.Slice` requires: no latency is NaN.
    less-IsStrictWeak :
        (now : ℕ) (n m : EwmaMonitor F) → IsAlike n m → IsValid m → IsStrictWeak (less name now n)
    less-IsStrictWeak now n m a v = record {
      irrefl = λ x. read x x ∙ Laws.lt_irrefl laws _ (number x);
      trans = λ x y z p q.
          read x z
          ∙ Laws.lt_of_lt_le laws _ _ _ (sym (read x y) ∙ p)
              (laws.le_of_lt _ _ (sym (read y z) ∙ q));
      not_trans = λ x y z p q.
          read x z
          ∙ Laws.not_lt_trans laws _ _ _ (number x) (number y) (number z) (sym (read x y) ∙ p)
              (sym (read y z) ∙ q);
    }
      where
        number : (x : P) → ranking (name x) m ≼ ranking (name x) m
        number x = ranking-number (name x) m v

        read : (x y : P) → less name now n x y ≡ d.lt (ranking (name x) m) (ranking (name y) m)
        read x y = less-ranking now n m x y a

    module _ (sort : (P → P → Bool) → List P → List P) (s : IsSort sort) where
      -- From a valid monitor, the provider returned is one of the providers, allowed and not
      -- unhealthy, and no other such provider ranks before it.
      pub select-some :
          (now : ℕ) (ps : List P) (allowlist : List String) (m : EwmaMonitor F) {p : P}
          → IsValid m
          → (select name sort now ps allowlist m).1 ≡ some p
          → Mem p ps
            × (eligible name now allowlist m p ≡ true)
            × ((q : P)
                → Mem q ps
                → eligible name now allowlist m q ≡ true
                → d.lt (ranking (name q) m) (ranking (name p) m) ≡ false)
      unfolding select
      select-some now ps allowlist m {p} v e =
          let (m', found) = candidates name now allowlist ps m in
          let alike = candidates-IsAlike name now allowlist ps m in
          let test = eligible name now allowlist m in
          let kept : found ≡ keep test ps = candidates-keep name now allowlist ps m in
          let order = less-IsStrictWeak now m' m alike v in
          let (mem, least) = best-least sort s (less name now m') found order e in
          let (here, good) = mem-keep test ps (rw kept at mem) in
          (
            here,
            good,
            λ q there fine.
                sym (less-ranking now m' m q p alike)
                ∙ least q (rw kept (mem-keep_of_mem test ps there fine)),
          )

      -- No provider is returned exactly when every provider that the allowlist admits is unhealthy.
      pub select-none :
          (now : ℕ) (ps : List P) (allowlist : List String) (m : EwmaMonitor F)
          → ((select name sort now ps allowlist m).1 ≡ none)
            ↔ ((p : P) → Mem p ps → eligible name now allowlist m p ≡ false)
      unfolding select
      select-none now ps allowlist m =
          let (m', found) = candidates name now allowlist ps m in
          let test = eligible name now allowlist m in
          let kept : found ≡ keep test ps = candidates-keep name now allowlist ps m in
          (
            λ e p mem.
                let none_left = sym kept ∙ best_none sort s (less name now m') found e in
                elim (Bool-cases (test p)) [
                  | inl good ↦
                      absurd (not-mem-nil (rw none_left at (mem-keep_of_mem test ps mem good)))
                  | inr bad ↦ bad
                ],
            λ all. rw (kept, keep-none test ps all) (best-nil sort s (less name now m')),
          )
