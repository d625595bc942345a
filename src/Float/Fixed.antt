-- ===== src/Float/Fixed.antt =====
-- The laws of `float64` can be met: fixed-point numbers of six decimals, rounded down. Witnesses
-- and tests run on these; the theorems hold of every type with the laws.
use native.Mathlib.Nat.{
  le_trans, mul-le-mul, le_refl, le_of_mul-le-mul_left, le-div_iff_mul-le, div-mul-le_self,
  div-le_of_le-mul,
}
use kenbun.Prelude.{
  ℕ, true, ◌≡◌, ◌+◌, ◌-◌, ◌*◌, ◌/◌, ◌^◌, ◌≤◌, ◌&&◌, ltb, leb, pos, pos_part, arith,
}
use kenbun.Float.{Float, IsIeee}

abbrev pub Fixed : Type 0
Fixed = ℕ

abbrev scale : ℕ
scale = 1000000

instance abbrev pub fixed_float : Float Fixed
fixed_float = record {
  ratio = λ a b. a * scale / b;
  of_int = λ n. pos_part n * scale;
  trunc = λ x. pos (x / scale);
  add = λ x y. x + y;
  sub = λ x y. x - y;
  mul = λ x y. x * y / scale;
  div = λ x y. x * scale / y;
  lt = ltb;
  le = leb;
  eq = λ x y. leb x y && leb y x;
  max_float = 10 ^ 30;
}

cross : (q a b m n s : ℕ) → 1 ≤ b → q * b ≤ a * s → a * n ≤ m * b → q * n ≤ m * s
cross q a b m n s hb h k =
    let p : q * b * n ≤ a * s * n = mul-le-mul h (le_refl n) in
    let r : a * n * s ≤ m * b * s = mul-le-mul k (le_refl s) in
    le_of_mul-le-mul_left {k = b} (omega arith) (omega arith)

div-le-div : (a b m n : ℕ) → 1 ≤ b → 1 ≤ n → a * n ≤ m * b → a * scale / b ≤ m * scale / n
div-le-div a b m n hb hn h =
    (le-div_iff_mul-le hn).1
      (cross (a * scale / b) a b m n scale hb (div-mul-le_self (a * scale) b) h)

le-div : (a b m : ℕ) → 1 ≤ b → m * b ≤ a * scale → m ≤ a * scale / b
le-div a b m hb h = (le-div_iff_mul-le hb).1 h

div-le : (a b : ℕ) → a * 2 ≤ b → a * scale / b ≤ 500000
div-le a b h = div-le_of_le-mul b (omega arith)

scaled_mono : (c x y : ℕ) → x ≤ y → c * x / scale ≤ c * y / scale
scaled_mono c x y h = let p : c * x ≤ c * y = mul-le-mul (le_refl c) h in omega arith

fraction-le : (c x : ℕ) → c ≤ scale → c * x / scale ≤ x
fraction-le c x h = let p : c * x ≤ scale * x = mul-le-mul h (le_refl x) in omega arith

quotient-le : (x k : ℕ) → 1 ≤ k → x * scale / (k * scale / 1) ≤ x
quotient-le x k h =
    div-le_of_le-mul (k * scale / 1) (
      let p : 1 * (scale * x) ≤ k * (scale * x) = mul-le-mul h (le_refl (scale * x)) in grind arith)

nothing : (x y : ℕ) → leb x 0 ≡ true → leb (x * y / scale) 0 ≡ true
nothing x y h = let e : x ≡ 0 = ground arith in rw e (ground arith)

scaled_mono_left : (c x y : ℕ) → x ≤ y → x * c / scale ≤ y * c / scale
scaled_mono_left c x y h = let p : x * c ≤ y * c = mul-le-mul h (le_refl c) in omega arith

quotient_mono :
    (x y k : ℕ) → 1 ≤ k → x ≤ y → x * scale / (k * scale / 1) ≤ y * scale / (k * scale / 1)
quotient_mono x y k hk h =
    (le-div_iff_mul-le {k = k * scale / 1} (omega arith)).1
      (le_trans (div-mul-le_self (x * scale) (k * scale / 1)) (omega arith))

pub Fixed-IsIeee : IsIeee Fixed
Fixed-IsIeee = record {
  refl_of_le = λ x y h. ground arith;
  le_trans = λ x y z p q. ground arith;
  not_lt_of_le = λ x y p. ground arith;
  le_of_not_lt = λ x y p q r. ground arith;
  le_of_lt = λ x y p. ground arith;
  eq_le = λ x y. ground arith;
  ratio_mono = λ a b m n hb hn h. ground (arith, div-le-div a b m n);
  half_lt_one = ground arith;
  of_int_pos = λ n. ground arith;
  of_int_mono = λ a b h. ground arith;
  one_le_max = ground arith;
  add_mono = λ w x y z _ _ p q. ground arith;
  add_zero = λ x _. ground arith;
  mul_mono = λ c x y _ _ _ h. ground (arith, scaled_mono c x y);
  mul_zero = λ c _ _. ground arith;
  mul_one = λ c _. ground arith;
  mul_le = λ c x h _ _. ground (arith, fraction-le c x);
  sub_one = λ x h. ground arith;
  add-sub_one = λ x h. ground arith;
  sub_pos = λ a b ha h. ground (arith, div-le a b);
  ratio_pos = λ a b ha hb h. ground (arith, le-div a b 1 (omega arith) (omega arith));
  sub_unit = λ x h. ground arith;
  unit_count = λ x n h _ k. ground arith;
  ratio_lt = λ m n h _. ground arith;
  of_int_finite = λ n h. ground arith;
  trunc_bounds = λ x n _ h _. ground arith;
  trunc_below = λ x _ h. ground arith;
  div_nonneg = λ x k _ _ _. ground arith;
  div_le = λ x k hk _ _. ground (arith, quotient-le x k hk);
  mul_nonneg = λ x y _ _ _ _. ground arith;
  mul_zero_left = λ x y _ h _ _. nothing x y h;
  add_finite = λ x y h k. ground arith;
  mul_mono_left = λ x y c _ _ _ h. ground (arith, scaled_mono_left c x y);
  div_mono = λ x y k hk _ _ h. ground (arith, quotient_mono x y k hk);
}
