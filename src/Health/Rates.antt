-- ===== src/Health/Rates.antt =====
-- The arithmetic of the error rate: what one success and one error make of a rate in [0, 1].
use kenbun.Prelude.{arith}
use kenbun.Float.{Float, IsIeee, ◌≼◌, ◌≺◌, zero_float, one_float, NonNeg, IsUnit}
use kenbun.Float.Laws

module _ {F : Type 0} ⦃d : Float F⦄ where
  -- the smoothing factor, and the weight of what was there before
  abbrev pub tenth : F
  tenth = d.ratio 1 10

  abbrev pub rest : F
  rest = d.sub one_float tenth

  -- the error rates that successes lead to from 1, and errors from 0
  unfoldable pub fade : F → F
  fade x = d.mul rest x

  unfoldable pub build : F → F
  unfolding fade
  build x = d.add (d.mul tenth one_float) (fade x)

  module _ (laws : IsIeee F) where
    open laws use {
      refl_of_le, le_trans, ratio_mono, one_le_max, add_mono, mul_mono, mul_one, mul_le, sub_one,
      add-sub_one, sub_pos, ratio_pos,
    }

    pub IsUnit-tenth : IsUnit tenth
    IsUnit-tenth = (
      Laws.NonNeg-ratio laws 1 10 (omega arith),
      ratio_mono 1 10 1 1 (omega arith) (omega arith) (omega arith),
    )

    pub IsUnit-rest : IsUnit rest
    IsUnit-rest = sub_one tenth IsUnit-tenth

    pub rest_pos : zero_float ≺ rest
    rest_pos = sub_pos 1 10 (omega arith) (omega arith)

    pub rest-le-max : rest ≼ d.max_float
    rest-le-max = le_trans rest one_float d.max_float IsUnit-rest.1 one_le_max

    pub fade_mono : (x y : F) → NonNeg x → x ≼ y → fade x ≼ fade y
    unfolding fade
    fade_mono x y = mul_mono rest x y rest_pos rest-le-max

    pub tenth_pos : zero_float ≺ tenth
    tenth_pos = ratio_pos 1 10 (omega arith) (omega arith) (omega arith)

    pub tenth-le-max : tenth ≼ d.max_float
    tenth-le-max = le_trans tenth one_float d.max_float IsUnit-tenth.1 one_le_max

    NonNeg-fade : (x : F) → NonNeg x → NonNeg (fade x)
    unfolding fade
    NonNeg-fade x h = Laws.NonNeg-mul laws rest x rest_pos rest-le-max h

    pub fade-le : (x : F) → IsUnit x → fade x ≼ x
    unfolding fade
    fade-le x h = mul_le rest x IsUnit-rest h.0 (le_trans x one_float d.max_float h.1 one_le_max)

    pub IsUnit-fade : (x : F) → IsUnit x → IsUnit (fade x)
    IsUnit-fade x h = (NonNeg-fade x h.0, le_trans (fade x) x one_float (fade-le x h) h.1)

    NonNeg-tenth : NonNeg (d.mul tenth one_float)
    NonNeg-tenth =
        le_trans zero_float tenth (d.mul tenth one_float) IsUnit-tenth.0
          (mul_one tenth IsUnit-tenth.0).0

    pub build_mono : (x y : F) → NonNeg x → x ≼ y → build x ≼ build y
    unfolding build
    build_mono x y p q =
        let t = d.mul tenth one_float in
        add_mono t t (fade x) (fade y) NonNeg-tenth (NonNeg-fade x p)
          (refl_of_le zero_float t NonNeg-tenth).1 (fade_mono x y p q)

    pub IsUnit-build : (x : F) → IsUnit x → IsUnit (build x)
    unfolding build fade
    IsUnit-build x h =
        let t = d.mul tenth one_float in
        let top = (mul_one rest IsUnit-rest.0).1 in
        let low = NonNeg-fade x h.0 in
        (
          Laws.NonNeg-add laws t (fade x) NonNeg-tenth low,
          le_trans (build x) (d.add tenth rest) one_float
              (add_mono t tenth (fade x) rest NonNeg-tenth low (mul_one tenth IsUnit-tenth.0).1
                (le_trans (fade x) (fade one_float) rest (fade_mono x one_float h.0 h.1) top))
              (add-sub_one tenth IsUnit-tenth).0,
        )

    -- An error rate of 1 stays there.
    pub build-one : (x : F) → one_float ≼ x → one_float ≼ build x
    unfolding build fade
    build-one x h =
        let t = d.mul tenth one_float in
        let full = (mul_one rest IsUnit-rest.0).0 in
        le_trans one_float (d.add tenth rest) (build x) (add-sub_one tenth IsUnit-tenth).1 (
          add_mono tenth t rest (fade x) IsUnit-tenth.0 IsUnit-rest.0
            (mul_one tenth IsUnit-tenth.0).0
            (le_trans rest (fade one_float) (fade x) full
              (fade_mono one_float x (Laws.IsUnit-one laws).0 h)))
