-- ===== src/Health/Outage.antt =====
-- How a provider gets into the unhealthy state, how it stays there and how it leaves it.
use native.Mathlib.Nat.{zero-add, add-zero}
use text.Mathlib.TextPositions.{eq_refl}
use native.Mathlib.Numerals.{one-add}
use kenbun.Prelude.{
  ℕ, zero, suc, ◌+◌, String, ◌≡◌, ◌≢◌, Bool, Bool-cases, inl, inr, false, if◌then◌else◌, ◌==◌, List,
  [], ◌∷◌, All, arith,
}
use kenbun.Float.{Float, IsIeee, ◌≼◌, ◌≺◌, zero_float, one_float, IsUnit}
use kenbun.Float.Laws
use kenbun.Health.{EwmaMonitor, unhealthy, get_state, Call, success, error, fail, query, call}
use kenbun.Health.Rates.{fade, build, fade_mono, build_mono, IsUnit-fade, IsUnit-build, build-one}
use kenbun.Health.Bounds.{IsValid, call-IsValid}
use kenbun.Health.Traces.{
  run, rate_of, rate_step, rate_after, rate-call, rate-IsUnit, unhealthy_iff,
}

abbrev pub is_success_of : String → Call → Bool
is_success_of q (success name latency) = name == q
is_success_of q _ = false

abbrev pub is_error_of : String → Call → Bool
is_error_of q (error name status) = name == q
is_error_of q _ = false

abbrev pub is_fail_of : String → Call → Bool
is_fail_of q (fail name) = name == q
is_fail_of q _ = false

-- how many of the calls pass a test
abbrev pub count : (Call → Bool) → List (ℕ × Call) → ℕ
count test [] = 0
count test ((now, c) ∷ cs) = (if test c then 1 else 0) + count test cs

-- no call passes the test
abbrev pub Lacks : (Call → Bool) → List (ℕ × Call) → Type 0
Lacks test = All (λ e. test e.1 ≡ false)

regroup : (a b c : ℕ) → a + b + c ≡ b + (a + c)
regroup a b c = omega arith

module _ {F : Type 0} ⦃d : Float F⦄ where
  -- the error rate after `n` errors from 0, and after `n` successes from 1
  unfoldable pub builds : ℕ → F
  builds zero = zero_float
  builds (suc n) = build (builds n)

  unfoldable pub fades : ℕ → F
  fades zero = one_float
  fades (suc n) = fade (fades n)

  module _ (laws : IsIeee F) where
    open laws use {refl_of_le, le_trans, not_lt_of_le, half_lt_one}

    builds-IsUnit : (n : ℕ) → IsUnit {F = F} (builds n)
    unfolding builds
    builds-IsUnit zero = Laws.IsUnit-zero laws
    builds-IsUnit (suc n) = IsUnit-build laws (builds n) (builds-IsUnit n)

    fades-IsUnit : (n : ℕ) → IsUnit {F = F} (fades n)
    unfolding fades
    fades-IsUnit zero = Laws.IsUnit-one laws
    fades-IsUnit (suc n) = IsUnit-fade laws (fades n) (fades-IsUnit n)

    builds-step :
        (q : String) (c : Call) (k : ℕ) (x : F)
        → IsUnit x
        → is_success_of q c ≡ false
        → builds k ≼ x
        → builds ((if is_error_of q c then 1 else 0) + k) ≼ rate_after q c x
    unfolding rate_after rate_step builds
    builds-step q (success name latency) k x u s h = rw s (rw zero-add h)
    builds-step q (error name status) k x u s h = elim (Bool-cases (name == q)) [
      | inl hit ↦ rw (hit, one-add) (build_mono laws (builds k) x (builds-IsUnit k).0 h)
      | inr miss ↦ rw (miss, zero-add) h
    ]
    builds-step q (fail name) k x u s h = elim (Bool-cases (name == q)) [
      | inl hit ↦ rw (zero-add, hit) (builds-IsUnit k).1
      | inr miss ↦ rw (zero-add, miss) h
    ]
    builds-step q (query name) k x u s h = elim (Bool-cases (name == q)) [
      | inl hit ↦ rw (zero-add, hit) h
      | inr miss ↦ rw (zero-add, miss) h
    ]

    -- An error rate of 1 is left only by a success.
    ones-step :
        (q : String) (c : Call) (x : F)
        → is_success_of q c ≡ false
        → one_float ≼ x
        → one_float ≼ rate_after q c x
    unfolding rate_after rate_step
    ones-step q (success name latency) x s h = rw s h
    ones-step q (error name status) x s h = ground (arith, build-one laws x h)
    ones-step q (fail name) x s h = ground (arith, (Laws.IsUnit-one laws).1)
    ones-step q (query name) x s h = ground arith

    fades-step :
        (q : String) (c : Call) (k : ℕ) (x : F)
        → IsUnit x
        → is_error_of q c ≡ false
        → is_fail_of q c ≡ false
        → x ≼ fades k
        → rate_after q c x ≼ fades ((if is_success_of q c then 1 else 0) + k)
    unfolding rate_after rate_step fades
    fades-step q (success name latency) k x u e f h = elim (Bool-cases (name == q)) [
      | inl hit ↦ rw (hit, one-add) (fade_mono laws x (fades k) u.0 h)
      | inr miss ↦ rw (miss, zero-add) h
    ]
    fades-step q (error name status) k x u e f h = rw (zero-add, e) h
    fades-step q (fail name) k x u e f h = rw (zero-add, f) h
    fades-step q (query name) k x u e f h = elim (Bool-cases (name == q)) [
      | inl hit ↦ rw (zero-add, hit) h
      | inr miss ↦ rw (zero-add, miss) h
    ]

    builds-run :
        (q : String) (cs : List (ℕ × Call)) (k : ℕ) (m : EwmaMonitor F)
        → IsValid m
        → Lacks (is_success_of q) cs
        → builds k ≼ rate_of q m
        → builds (count (is_error_of q) cs + k) ≼ rate_of q (run cs m)
    unfolding run
    builds-run q [] k m v s h = rw zero-add h
    builds-run q ((now, c) ∷ cs) k m v (s, ss) h =
        let here : ℕ = if is_error_of q c then 1 else 0 in
        let step = builds-step q c k (rate_of q m) (rate-IsUnit laws q m v) s h in
        let after = call now c m in
        rw (regroup here (count (is_error_of q) cs) k) (
          builds-run q cs (here + k) after (call-IsValid laws now c m v) ss
            (rw (rate-call laws now c q m v) step))

    -- From any valid state: if no success of the provider is recorded, and as many errors as build
    -- up more than a half from nothing, then the provider is unhealthy, whatever else is called
    -- between.
    pub errors-unhealthy :
        (q : String) (cs : List (ℕ × Call)) (now : ℕ) (m : EwmaMonitor F)
        → IsValid m
        → Lacks (is_success_of q) cs
        → d.ratio 1 2 ≺ builds (count (is_error_of q) cs)
        → (get_state now q (run cs m)).1 ≡ unhealthy
    unfolding builds
    errors-unhealthy q cs now m v s h =
        let bound = builds-run q cs 0 m v s (rate-IsUnit laws q m v).0 in
        (unhealthy_iff now q (run cs m)).1 (Laws.lt_of_lt_le laws _ _ _ h (rw add-zero at bound))

    ones-run :
        (q : String) (cs : List (ℕ × Call)) (m : EwmaMonitor F)
        → IsValid m
        → Lacks (is_success_of q) cs
        → one_float ≼ rate_of q m
        → one_float ≼ rate_of q (run cs m)
    unfolding run
    ones-run q [] m v s h = h
    ones-run q ((now, c) ∷ cs) m v (s, ss) h =
        ones-run q cs (call now c m) (call-IsValid laws now c m v) ss
          (rw (rate-call laws now c q m v) (ones-step q c (rate_of q m) s h))

    -- From a valid monitor, a provider that was failed by hand stays unhealthy until a success of
    -- it is recorded.
    pub fail-unhealthy :
        (q : String) (cs : List (ℕ × Call)) (before now : ℕ) (m : EwmaMonitor F)
        → IsValid m
        → Lacks (is_success_of q) cs
        → (get_state now q (run cs (call before (fail q) m))).1 ≡ unhealthy
    unfolding rate_after rate_step
    fail-unhealthy q cs before now m v s =
        let failed = call before (fail q) m in
        let full : one_float ≼ rate_of q failed =
          rw (rate-call laws before (fail q) q m v, eq_refl q) (Laws.IsUnit-one laws).1 in
        (unhealthy_iff now q (run cs failed)).1 (
          Laws.lt_of_lt_le laws _ _ _ half_lt_one
            (ones-run q cs failed (call-IsValid laws before (fail q) m v) s full))

    fades-run :
        (q : String) (cs : List (ℕ × Call)) (k : ℕ) (m : EwmaMonitor F)
        → IsValid m
        → Lacks (is_error_of q) cs
        → Lacks (is_fail_of q) cs
        → rate_of q m ≼ fades k
        → rate_of q (run cs m) ≼ fades (count (is_success_of q) cs + k)
    unfolding run
    fades-run q [] k m v e f h = rw zero-add h
    fades-run q ((now, c) ∷ cs) k m v (e, es) (f, fs) h =
        let here : ℕ = if is_success_of q c then 1 else 0 in
        let step = fades-step q c k (rate_of q m) (rate-IsUnit laws q m v) e f h in
        let after = call now c m in
        rw (regroup here (count (is_success_of q) cs) k) (
          fades-run q cs (here + k) after (call-IsValid laws now c m v) es fs
            (rw (rate-call laws now c q m v) step))

    -- From any valid state: if no error and no forced failure of the provider is recorded, and as
    -- many successes as let an error rate of 1 fade to a half, then the provider is not unhealthy.
    pub successes-recover :
        (q : String) (cs : List (ℕ × Call)) (now : ℕ) (m : EwmaMonitor F)
        → IsValid m
        → Lacks (is_error_of q) cs
        → Lacks (is_fail_of q) cs
        → fades (count (is_success_of q) cs) ≼ d.ratio 1 2
        → (get_state now q (run cs m)).1 ≢ unhealthy
    unfolding fades
    successes-recover q cs now m v e f h bad =
        let bound = fades-run q cs 0 m v e f (rate-IsUnit laws q m v).1 in
        let low = le_trans _ _ _ (rw add-zero at bound) h in
        ground (arith, (unhealthy_iff now q (run cs m)).0 bad, not_lt_of_le _ _ low)
