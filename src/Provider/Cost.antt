-- ===== src/Provider/Cost.antt =====
-- The estimated cost of a request.
use kenbun.Prelude.{ℕ, ◌≤◌, ◌^◌, String, Bool-cases, inl, inr, pos, ◌==◌, arith}
use kenbun.Float.{Float, IsIeee, ◌≼◌, ◌≺◌, zero_float, NonNeg}
use kenbun.Float.Laws
use kenbun.Provider.{rates, estimate_cost}

module _ {F : Type 0} ⦃d : Float F⦄ (laws : IsIeee F) where
  open laws use {
    le_trans, ratio_mono, ratio_pos, one_le_max, mul_mono_left, mul_nonneg, div_mono, div_nonneg,
    add_mono, of_int_mono, of_int_finite, le_of_lt,
  }

  -- a price: a number above zero and far from the largest
  abbrev IsPrice : F → Type 0
  IsPrice r = (zero_float ≺ r) × (r ≼ d.max_float)

  IsPrice-small : (a b : ℕ) → 1 ≤ a → a ≤ b → b ≤ 1000 → IsPrice (d.ratio a b)
  IsPrice-small a b h k l = (
    ratio_pos a b h k l,
    le_trans _ _ _ (ratio_mono a b 1 1 (omega arith) (omega arith) (omega arith)) one_le_max,
  )

  IsPrice-large : IsPrice (d.ratio 3 2)
  IsPrice-large = (
    Laws.lt_of_lt_le laws _ _ _ (ratio_pos 1 2 (omega arith) (omega arith) (omega arith))
        (ratio_mono 1 2 3 2 (omega arith) (omega arith) (omega arith)),
    le_trans _ _ _ (ratio_mono 3 2 2 1 (omega arith) (omega arith) (omega arith))
        (rw (laws.of_int_pos 2) at (of_int_finite 2 (omega arith))),
  )

  rates-IsPrice :
      (model : String) → IsPrice (rates {F = F} model).0 × IsPrice (rates {F = F} model).1
  unfolding rates
  rates-IsPrice model = elim (Bool-cases (model == "gpt-4o")) [
    | inl gpt ↦ rw gpt (IsPrice-small 1 2 (omega arith) (omega arith) (omega arith), IsPrice-large)
    | inr other ↦ rw other (elim (Bool-cases (model == "claude-3-sonnet")) [
      | inl claude ↦
          rw claude (IsPrice-small 3 10 (omega arith) (omega arith) (omega arith), IsPrice-large)
      | inr rest ↦ rw rest (
        IsPrice-small 1 10 (omega arith) (omega arith) (omega arith),
        IsPrice-small 1 5 (omega arith) (omega arith) (omega arith),
      )
    ])
  ]

  part : ℕ → F → F
  part n r = d.div (d.mul (d.of_int (pos n)) r) (d.ratio 1000 1)

  part_mono :
      (m n : ℕ) (r : F) → IsPrice r → n ≤ 2 ^ 64 → m ≤ n → NonNeg (part m r) × (part m r ≼ part n r)
  unfolding part
  part_mono m n r (up, fin) b h =
      let low = Laws.NonNeg-of_int laws m in
      let prod =
        mul_nonneg (d.of_int (pos m)) r low (le_of_lt _ _ up) (of_int_finite m (omega arith)) fin in
      (
        div_nonneg _ 1000 (omega arith) (omega arith) prod,
        div_mono _ _ 1000 (omega arith) (omega arith) prod
            (mul_mono_left _ _ r up fin low (of_int_mono (pos m) (pos n) (omega arith))),
      )

  -- For tokens from 0 to 2 ^ 63: a cost is not negative, and a request with at least as many tokens
  -- of both kinds costs at least as much under the same model.
  pub estimate_cost_mono :
      (model : String) (a b m n : ℕ)
      → m ≤ 2 ^ 63
      → n ≤ 2 ^ 63
      → a ≤ m
      → b ≤ n
      → NonNeg {F = F} (estimate_cost model (pos a) (pos b))
        × ◌≼◌ {F = F} (estimate_cost model (pos a) (pos b)) (estimate_cost model (pos m) (pos n))
  unfolding estimate_cost part
  estimate_cost_mono model a b m n hm hn h k =
      let (p, q) = rates-IsPrice model in
      let (low, up) = part_mono a m (rates model).0 p (omega arith) h in
      let (low', up') = part_mono b n (rates model).1 q (omega arith) k in
      (Laws.NonNeg-add laws _ _ low low', add_mono _ _ _ _ low low' up up')
