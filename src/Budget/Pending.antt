-- ===== src/Budget/Pending.antt =====
-- What is pending for a tenant after any events, and that each tenant is pending once.
use mathlib.Core.Path.{subst}
use kenbun.Prelude.{
  String, ◌≡◌, refl, ◌∙◌, Bool-cases, inl, inr, none, [], ◌∷◌, if◌then◌else◌, ◌==◌, eq_iff, arith,
}
use kenbun.Prelude.Map.{Map, lookup, insert, lookup-insert}
use kenbun.Float.{Float}
use kenbun.Budget.{pending_of, add_cost}

-- each key stands once
abbrev pub Distinct : {V : Type 0} → Map V → Type 0
Distinct [] = Unit
Distinct ((k, v) ∷ m) = (lookup k m ≡ none) × Distinct m

module _ {V : Type 0} where
  pub insert-Distinct : (k : String) (v : V) (m : Map V) → Distinct m → Distinct (insert k v m)
  unfolding insert lookup
  insert-Distinct k v [] h = (refl, tt)
  insert-Distinct k v ((j, w) ∷ m) (new, rest) = elim (Bool-cases (j == k)) [
    | inl hit ↦ rw hit (subst (λ q. lookup q m ≡ none) ((eq_iff j k).0 hit) new, rest)
    | inr miss ↦
        rw miss (
          lookup-insert k j v m ∙ ground (arith, eq_iff k j, eq_iff j k),
          insert-Distinct k v m rest,
        )
  ]

module _ {F : Type 0} ⦃d : Float F⦄ where
  -- A cost is added to what is pending for its tenant, and to nothing else.
  pub pending-add_cost :
      (id q : String) (cost : F) (m : Map F)
      → pending_of q (add_cost id cost m)
        ≡ (if id == q then d.add (pending_of q m) cost else pending_of q m)
  unfolding pending_of add_cost
  pending-add_cost id q cost m =
      ground (arith, lookup-insert id q (d.add (pending_of id m) cost) m, eq_iff id q)

  pub add_cost-Distinct :
      (id : String) (cost : F) (m : Map F) → Distinct m → Distinct (add_cost id cost m)
  unfolding add_cost
  add_cost-Distinct id cost m = insert-Distinct id (d.add (pending_of id m) cost) m
