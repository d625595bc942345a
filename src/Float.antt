-- ===== src/Float.antt =====
-- Go's `float64`, of which the program uses constants, four operations, three comparisons and two
-- conversions. The type is a parameter: `Float` is the operations, `IsIeee` is what IEEE 754
-- binary64 with rounding to nearest even guarantees of them. NaN is a value that is not `le`
-- itself.
pub mod Laws
pub mod Fixed
use kenbun.Prelude.{ℕ, ◌+◌, ◌^◌, ◌<◌, ◌*◌, ◌≤◌, ◌≡◌, Bool, true, false, ◌&&◌, ℤ, pos, ◌≤ℤ◌}

pub record Float (F : Type 0) : Type 0 where
  -- the double nearest to a quotient: `0.5` is `ratio 1 2`
  pub ratio : ℕ → ℕ → F
  -- `float64(n)`
  pub of_int : ℤ → F
  -- `int(x)`
  pub trunc : F → ℤ
  pub add : F → F → F
  pub sub : F → F → F
  pub mul : F → F → F
  pub div : F → F → F
  -- `<`, `<=`, `==`
  pub lt : F → F → Bool
  pub le : F → F → Bool
  pub eq : F → F → Bool
  -- `math.MaxFloat64`
  pub max_float : F

module _ {F : Type 0} ⦃d : Float F⦄ where
  abbrev pub zero_float : F
  zero_float = d.ratio 0 1

  abbrev pub one_float : F
  one_float = d.ratio 1 1

  infix 4 ◌≼◌ ◌≺◌
  abbrev pub ◌≼◌ : F → F → Type 0
  x ≼ y = d.le x y ≡ true

  abbrev pub ◌≺◌ : F → F → Type 0
  x ≺ y = d.lt x y ≡ true

  -- neither NaN nor below zero
  abbrev pub NonNeg : F → Type 0
  NonNeg x = zero_float ≼ x

  -- a number from 0 to 1
  abbrev pub IsUnit : F → Type 0
  IsUnit x = (zero_float ≼ x) × (x ≼ one_float)

pub record IsIeee (F : Type 0) ⦃d : Float F⦄ : Type 0 where
  -- comparisons
  pub refl_of_le : (x y : F) → x ≼ y → (x ≼ x) × (y ≼ y)
  pub le_trans : (x y z : F) → x ≼ y → y ≼ z → x ≼ z
  pub not_lt_of_le : (x y : F) → x ≼ y → d.lt y x ≡ false
  pub le_of_not_lt : (x y : F) → x ≼ x → y ≼ y → d.lt y x ≡ false → x ≼ y
  pub le_of_lt : (x y : F) → x ≺ y → x ≼ y
  pub eq_le : (x y : F) → d.eq x y ≡ (d.le x y && d.le y x)
  -- constants and conversions: rounding is monotone, and exact at small whole numbers
  pub ratio_mono : (a b m n : ℕ) → 1 ≤ b → 1 ≤ n → a * n ≤ m * b → d.ratio a b ≼ d.ratio m n
  pub half_lt_one : d.ratio 1 2 ≺ d.ratio 1 1
  pub of_int_pos : (n : ℕ) → d.of_int (pos n) ≡ d.ratio n 1
  pub of_int_mono : (a b : ℤ) → a ≤ℤ b → d.of_int a ≼ d.of_int b
  pub one_le_max : d.ratio 1 1 ≼ d.max_float
  -- sums and products of numbers that are not negative: rounding is monotone
  pub add_mono : (w x y z : F) → NonNeg w → NonNeg y → w ≼ x → y ≼ z → d.add w y ≼ d.add x z
  pub add_zero : (x : F) → NonNeg x → (x ≼ d.add x zero_float) × (d.add x zero_float ≼ x)
  pub mul_mono :
      (c x y : F) → zero_float ≺ c → c ≼ d.max_float → NonNeg x → x ≼ y → d.mul c x ≼ d.mul c y
  pub mul_zero : (c : F) → zero_float ≺ c → c ≼ d.max_float → NonNeg (d.mul c zero_float)
  pub mul_one : (c : F) → NonNeg c → (c ≼ d.mul c one_float) × (d.mul c one_float ≼ c)
  pub mul_le : (c x : F) → IsUnit c → NonNeg x → x ≼ d.max_float → d.mul c x ≼ x
  -- differences inside the unit interval
  pub sub_one : (x : F) → IsUnit x → IsUnit (d.sub one_float x)
  pub add-sub_one :
      (x : F) → IsUnit x → let s = d.add x (d.sub one_float x) in (s ≼ one_float) × (one_float ≼ s)
  pub sub_pos : (a b : ℕ) → 1 ≤ a → a * 2 ≤ b → zero_float ≺ d.sub one_float (d.ratio a b)
  pub ratio_pos : (a b : ℕ) → 1 ≤ a → a ≤ b → b ≤ 1000 → zero_float ≺ d.ratio a b
  -- taking one away from a number of at least one
  pub sub_unit : (x : F) → one_float ≼ x → NonNeg (d.sub x one_float) × (d.sub x one_float ≼ x)
  pub unit_count :
      (x : F) (n : ℕ)
      → one_float ≼ x
      → n + 1 ≤ 2 ^ 53
      → d.ratio n 1 ≼ d.sub x one_float
      → d.ratio (n + 1) 1 ≼ x
  -- whole numbers
  pub ratio_lt : (m n : ℕ) → m < n → n ≤ 2 ^ 53 → d.ratio m 1 ≺ d.ratio n 1
  pub of_int_finite : (n : ℕ) → n ≤ 2 ^ 64 → d.of_int (pos n) ≼ d.max_float
  pub trunc_bounds :
      (x : F) (n : ℕ)
      → NonNeg x
      → x ≼ d.of_int (pos n)
      → n ≤ 2 ^ 53
      → (pos 0 ≤ℤ d.trunc x) × (d.trunc x ≤ℤ pos n)
  pub trunc_below : (x : F) → NonNeg x → x ≺ one_float → d.trunc x ≡ pos 0
  -- quotients by whole numbers, and products and sums far from the largest number
  pub div_nonneg : (x : F) (k : ℕ) → 1 ≤ k → k ≤ 10 ^ 9 → NonNeg x → NonNeg (d.div x (d.ratio k 1))
  pub div_le : (x : F) (k : ℕ) → 1 ≤ k → k ≤ 10 ^ 9 → NonNeg x → d.div x (d.ratio k 1) ≼ x
  pub mul_nonneg :
      (x y : F) → NonNeg x → NonNeg y → x ≼ d.max_float → y ≼ d.max_float → NonNeg (d.mul x y)
  pub mul_zero_left :
      (x y : F) → NonNeg x → x ≼ zero_float → NonNeg y → y ≼ d.max_float → d.mul x y ≼ zero_float
  pub add_finite :
      (x y : F)
      → x ≼ d.of_int (pos (2 ^ 64))
      → y ≼ d.of_int (pos (2 ^ 64))
      → d.add x y ≼ d.max_float
  pub mul_mono_left :
      (x y c : F) → zero_float ≺ c → c ≼ d.max_float → NonNeg x → x ≼ y → d.mul x c ≼ d.mul y c
  pub div_mono :
      (x y : F) (k : ℕ)
      → 1 ≤ k
      → k ≤ 10 ^ 9
      → NonNeg x
      → x ≼ y
      → d.div x (d.ratio k 1) ≼ d.div y (d.ratio k 1)
