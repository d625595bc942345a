-- ===== src/Float/Laws.antt =====
-- Consequences of the laws of `float64` that several components use.
use kenbun.Prelude.{◌≡◌, false, Bool-cases, inl, inr, arith, ℕ, ◌≤◌, pos}
use kenbun.Float.{Float, IsIeee, ◌≼◌, ◌≺◌, zero_float, one_float, NonNeg, IsUnit}

module _ {F : Type 0} ⦃d : Float F⦄ (laws : IsIeee F) where
  open laws use {
    refl_of_le, le_trans, not_lt_of_le, le_of_not_lt, le_of_lt, ratio_mono, add_mono, add_zero,
    mul_mono, mul_zero, of_int_pos,
  }

  pub lt_of_lt_le : (x y z : F) → x ≺ y → y ≼ z → x ≺ z
  lt_of_lt_le x y z p q = elim (Bool-cases (d.lt x z)) [
    | inl h ↦ h
    | inr h ↦
        let xy = le_of_lt x y p in
        let zx = le_of_not_lt z x (refl_of_le y z q).1 (refl_of_le x y xy).0 h in
        absurd (ground (arith, not_lt_of_le y x (le_trans y z x q zx)))
  ]

  pub lt_of_le_lt : (x y z : F) → x ≼ y → y ≺ z → x ≺ z
  lt_of_le_lt x y z p q = elim (Bool-cases (d.lt x z)) [
    | inl h ↦ h
    | inr h ↦
        let yz = le_of_lt y z q in
        let zx = le_of_not_lt z x (refl_of_le y z yz).1 (refl_of_le x y p).0 h in
        absurd (ground (arith, not_lt_of_le z y (le_trans z x y zx p)))
  ]

  -- A failed `<` fails through a third number.
  pub not_lt_trans :
      (x y z : F) → x ≼ x → y ≼ y → z ≼ z → d.lt x y ≡ false → d.lt y z ≡ false → d.lt x z ≡ false
  not_lt_trans x y z hx hy hz p q =
      not_lt_of_le z x (le_trans z y x (le_of_not_lt z y hz hy q) (le_of_not_lt y x hy hx p))

  pub lt_irrefl : (x : F) → x ≼ x → d.lt x x ≡ false
  lt_irrefl x h = not_lt_of_le x x h

  pub ratio_refl : (a b : ℕ) → 1 ≤ b → d.ratio a b ≼ d.ratio a b
  ratio_refl a b h = ratio_mono a b a b h h (omega arith)

  pub NonNeg-ratio : (a b : ℕ) → 1 ≤ b → NonNeg (d.ratio a b)
  NonNeg-ratio a b h = ratio_mono 0 1 a b (omega arith) h (omega arith)

  pub NonNeg-add : (x y : F) → NonNeg x → NonNeg y → NonNeg (d.add x y)
  NonNeg-add x y p q =
      let z : F = zero_float in
      let zz = NonNeg-ratio 0 1 (omega arith) in
      le_trans z (d.add z z) (d.add x y) (add_zero z zz).0 (add_mono z x z y zz zz p q)

  pub IsUnit-zero : IsUnit {F = F} zero_float
  IsUnit-zero =
      (NonNeg-ratio 0 1 (omega arith), ratio_mono 0 1 1 1 (omega arith) (omega arith) (omega arith))

  pub IsUnit-one : IsUnit {F = F} one_float
  IsUnit-one = (NonNeg-ratio 1 1 (omega arith), ratio_refl 1 1 (omega arith))

  pub NonNeg-mul : (c x : F) → zero_float ≺ c → c ≼ d.max_float → NonNeg x → NonNeg (d.mul c x)
  NonNeg-mul c x p q h =
      le_trans zero_float (d.mul c zero_float) (d.mul c x) (mul_zero c p q)
        (mul_mono c zero_float x p q IsUnit-zero.0 h)

  pub NonNeg-of_int : (n : ℕ) → NonNeg (d.of_int (pos n))
  NonNeg-of_int n = rw (of_int_pos n) (NonNeg-ratio n 1 (omega arith))
