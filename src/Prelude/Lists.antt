-- ===== src/Prelude/Lists.antt =====
-- Lists measured by native numbers, and a predicate on every element.
use Prim.Native.Nat.{ℕ, suc, ◌+◌}
use mathlib.Core.Path.{◌≡◌, refl}
use mathlib.Core.List.{
  List, [], ◌∷◌, ◌++◌, Mem, Mem-prop, not-mem-nil, mem-cons, mem-cons_self, mem-cons_of_mem,
}
use mathlib.Core.Bool.{Bool, true, false, Bool-set}
use mathlib.Core.Logic.Or
use mathlib.Core.HLevel.{×_prop}
use mathlib.Core.Logic.{inl, inr}
use kenbun.Prelude.Tests.{if◌then◌else◌, Bool-cases}
use native.Mathlib.Omega.{arith}

module _ {ℓ} {A : Type ℓ} where
  abbrev pub length : List A → ℕ
  length [] = 0
  length (x ∷ xs) = suc (length xs)

  abbrev pub All {κ} : (A → Type κ) → List A → Type κ
  All P [] = Unit
  All P (x ∷ xs) = P x × All P xs

  pub length-append : (xs ys : List A) → length (xs ++ ys) ≡ length xs + length ys
  length-append [] ys = omega arith
  length-append (x ∷ xs) ys = omega (arith, length-append xs ys)

  -- the elements that pass a test
  abbrev pub keep : (A → Bool) → List A → List A
  keep test [] = []
  keep test (x ∷ xs) = if test x then x ∷ keep test xs else keep test xs

  pub mem-keep :
      (test : A → Bool) (xs : List A) {a : A} → Mem a (keep test xs) → Mem a xs × (test a ≡ true)
  mem-keep test [] m = absurd (not-mem-nil m)
  mem-keep test (x ∷ xs) {a} m = elim (Bool-cases (test x)) [
    | inl good ↦
        let m' : Mem a (x ∷ keep test xs) = rw good at m in
        Or.elim (×_prop Mem-prop (Bool-set (test a) true)) (mem-cons.0 m')
          (λ e. (rw e mem-cons_self, rw e good)) (λ later. deeper (mem-keep test xs later))
    | inr bad ↦ deeper (mem-keep test xs (rw bad at m))
  ]
    where
      deeper : Mem a xs × (test a ≡ true) → Mem a (x ∷ xs) × (test a ≡ true)
      deeper (n, e) = (mem-cons_of_mem x n, e)

  pub mem-keep_of_mem :
      (test : A → Bool) (xs : List A) {a : A} → Mem a xs → test a ≡ true → Mem a (keep test xs)
  mem-keep_of_mem test [] m h = m
  mem-keep_of_mem test (x ∷ xs) {a} m h =
      Or.elim Mem-prop (mem-cons.0 m) (λ e. rw (← e, h) mem-cons_self)
        λ later.
          let rest = mem-keep_of_mem test xs later h in
          elim (Bool-cases (test x)) [
            | inl good ↦ rw good (mem-cons_of_mem x rest)
            | inr bad ↦ rw bad rest
          ]

  pub keep-congr : (f g : A → Bool) → ((a : A) → f a ≡ g a) → (xs : List A) → keep f xs ≡ keep g xs
  keep-congr f g h [] = refl
  keep-congr f g h (x ∷ xs) = rw (h x, keep-congr f g h xs)

  pub keep-none :
      (test : A → Bool) (xs : List A) → ((a : A) → Mem a xs → test a ≡ false) → keep test xs ≡ []
  keep-none test [] h = refl
  keep-none test (x ∷ xs) h =
      rw (h x mem-cons_self) (keep-none test xs (λ a m. h a (mem-cons_of_mem x m)))
