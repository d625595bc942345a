-- ===== src/Selector/Sort.antt =====
-- What `sort.Slice` promises of a comparison that is a strict weak order, and an insertion sort
-- that keeps the promise.
use mathlib.Core.List.{Mem, Perm, Pairwise, Pairwise-cons, mem-cons}
use mathlib.Core.List
use mathlib.Core.List.Perm
use mathlib.Core.Logic.Or
use mathlib.Core.Bool.{Bool-set}
use kenbun.Prelude.{
  ◌≡◌, Bool, true, false, Bool-cases, inl, inr, List, [], ◌∷◌, if◌then◌else◌, arith,
}

pub record IsStrictWeak {P : Type 0} (less : P → P → Bool) : Type 0 where
  pub irrefl : (x : P) → less x x ≡ false
  pub trans : (x y z : P) → less x y ≡ true → less y z ≡ true → less x z ≡ true
  pub not_trans : (x y z : P) → less x y ≡ false → less y z ≡ false → less x z ≡ false

pub record IsSort {P : Type 0} (sort : (P → P → Bool) → List P → List P) : Type 0 where
  pub permutes : (less : P → P → Bool) (l : List P) → Perm (sort less l) l
  pub sorts :
      (less : P → P → Bool) (l : List P)
      → IsStrictWeak less
      → Pairwise (λ a b. less b a ≡ false) (sort less l)

module _ {P : Type 0} where
  unfoldable pub put_in : (P → P → Bool) → P → List P → List P
  put_in less x [] = x ∷ []
  put_in less x (y ∷ ys) = if less y x then y ∷ put_in less x ys else x ∷ y ∷ ys

  unfoldable pub insertion_sort : (P → P → Bool) → List P → List P
  unfolding put_in
  insertion_sort less [] = []
  insertion_sort less (x ∷ xs) = put_in less x (insertion_sort less xs)

  put_in-perm : (less : P → P → Bool) (x : P) (l : List P) → Perm (put_in less x l) (x ∷ l)
  unfolding put_in
  put_in-perm less x [] = Perm.refl _
  put_in-perm less x (y ∷ ys) = elim (Bool-cases (less y x)) [
    | inl h ↦ rw h (Perm.trans (Perm.cons y (put_in-perm less x ys)) (Perm.swap x y ys))
    | inr h ↦ rw h (Perm.refl _)
  ]

  insertion_sort-perm : (less : P → P → Bool) (l : List P) → Perm (insertion_sort less l) l
  unfolding insertion_sort
  insertion_sort-perm less [] = Perm.refl _
  insertion_sort-perm less (x ∷ xs) =
      Perm.trans (put_in-perm less x (insertion_sort less xs))
        (Perm.cons x (insertion_sort-perm less xs))

  module _ (less : P → P → Bool) (w : IsStrictWeak less) where
    abbrev Rel : P → P → Type 0
    Rel a b = less b a ≡ false

    Rel-of_less : (x y : P) → less y x ≡ true → Rel y x
    Rel-of_less x y h = elim (Bool-cases (less x y)) [
      | inl k ↦ absurd (ground (arith, w.trans y x y h k, w.irrefl y))
      | inr k ↦ k
    ]

    put_in-sorted : (x : P) (l : List P) → Pairwise Rel l → Pairwise Rel (put_in less x l)
    unfolding put_in
    put_in-sorted x [] h = List.Pairwise-singleton Rel x
    put_in-sorted x (y ∷ ys) h = elim (Bool-cases (less y x)) [
      | inl k ↦ rw k (
          Pairwise-cons.1 (
            λ a m.
                Or.elim (Bool-set _ _) (mem-cons.0 ((Perm.mem_iff (put_in-perm less x ys)).0 m))
                  (λ e. rw e (Rel-of_less x y k)) ((Pairwise-cons.0 h).0 a),
            put_in-sorted x ys (Pairwise-cons.0 h).1,
          ))
      | inr k ↦ rw k (
          Pairwise-cons.1 (
            λ a m.
                Or.elim (Bool-set _ _) (mem-cons.0 m) (λ e. rw e k)
                  λ later. w.not_trans a y x ((Pairwise-cons.0 h).0 a later) k,
            h,
          ))
    ]

    insertion_sort-sorted : (l : List P) → Pairwise Rel (insertion_sort less l)
    unfolding insertion_sort
    insertion_sort-sorted [] = Pairwise.nil
    insertion_sort-sorted (x ∷ xs) =
        put_in-sorted x (insertion_sort less xs) (insertion_sort-sorted xs)

  pub insertion_sort-IsSort : IsSort {P = P} insertion_sort
  insertion_sort-IsSort = record {
    permutes = insertion_sort-perm;
    sorts = λ less l w. insertion_sort-sorted less w l;
  }
