-- ===== src/Health/Traces.antt =====
-- What sequences of calls, in any interleaving over the providers, do to one provider's state.
use kenbun.Prelude.{
  ℕ, String, ◌≡◌, ◌↔◌, refl, sym, ◌∙◌, ap, Option, none, some, Bool-cases, inl, inr, if◌then◌else◌,
  ◌==◌, List, [], ◌∷◌, arith,
}
use kenbun.Prelude.Map.{lookup}
use kenbun.Float.{Float, IsIeee, ◌≺◌, one_float, IsUnit}
use kenbun.Health.{
  ProviderMetrics, EwmaMonitor, new_metrics, after_success, after_error, after_failure, unhealthy,
  get_state, Call, success, error, fail, query, target, call,
}
use kenbun.Health.Frame.{entry, effect, lookup-call, get_metrics-entry}
use kenbun.Health.Rates.{fade, build}
use kenbun.Health.Bounds.{IsSound, IsValid, call-IsValid, entry-IsSound}

module _ {F : Type 0} ⦃d : Float F⦄ where
  -- calls with the clock readings at which they are made
  unfoldable pub run : List (ℕ × Call) → EwmaMonitor F → EwmaMonitor F
  run [] m = m
  run ((now, c) ∷ cs) m = run cs (call now c m)

  -- the error rate that a reader finds
  unfoldable pub rate_of : String → EwmaMonitor F → F
  rate_of q m = (entry 0 (lookup q m.metrics)).error_rate

  -- a call as a step on the error rate of its provider
  unfoldable pub rate_step : Call → F → F
  rate_step (success name latency) x = fade x
  rate_step (error name status) x = build x
  rate_step (fail name) x = one_float
  rate_step (query name) x = x

  unfoldable pub rate_after : String → Call → F → F
  unfolding rate_step
  rate_after q c x = if target c == q then rate_step c x else x

  entry-now :
      (now : ℕ) (o : Option (ProviderMetrics F)) → (entry now o).error_rate ≡ (entry 0 o).error_rate
  unfolding entry new_metrics
  entry-now now none = refl
  entry-now now (some pm) = refl

  entry-some : (pm : ProviderMetrics F) → (entry 0 (some pm)).error_rate ≡ pm.error_rate
  unfolding entry
  entry-some pm = refl

  effect-rate :
      (c : Call) (pm : ProviderMetrics F)
      → IsSound pm
      → (effect c pm).error_rate ≡ rate_step c pm.error_rate
  unfolding effect rate_step after_success after_error after_failure build
  effect-rate (success name latency) pm h = rw h.alpha
  effect-rate (error name status) pm h = rw h.alpha
  effect-rate (fail name) pm h = refl
  effect-rate (query name) pm h = refl

  pub unhealthy_iff :
      (now : ℕ) (q : String) (m : EwmaMonitor F)
      → ((get_state now q m).1 ≡ unhealthy) ↔ (d.ratio 1 2 ≺ rate_of q m)
  unfolding get_state rate_of
  unhealthy_iff now q m =
      let a = get_metrics-entry now q m in
      let b = entry-now now (lookup q m.metrics) in rw (a, ← b) (ground arith)

  module _ (laws : IsIeee F) where
    pub rate-call :
        (now : ℕ) (c : Call) (q : String) (m : EwmaMonitor F)
        → IsValid m
        → rate_of q (call now c m) ≡ rate_after q c (rate_of q m)
    unfolding rate_of rate_after
    rate-call now c q m v =
        let found = lookup-call now c q m in
        let read : Option (ProviderMetrics F) → F = λ o. (entry 0 o).error_rate in
        let e = entry now (lookup q m.metrics) in
        let same = entry-now now (lookup q m.metrics) in
        elim (Bool-cases (target c == q)) [
          | inl hit ↦
              ap read (rw hit at found)
              ∙ entry-some (effect c e)
              ∙ effect-rate c e (entry-IsSound laws now q m v)
              ∙ ap (rate_step c) same
              ∙ sym (rw hit)
          | inr miss ↦ ap read (rw miss at found) ∙ sym (rw miss)
        ]

    -- Every monitor that calls lead to from a valid one is valid.
    pub run-IsValid : (cs : List (ℕ × Call)) (m : EwmaMonitor F) → IsValid m → IsValid (run cs m)
    unfolding run
    run-IsValid [] m v = v
    run-IsValid ((now, c) ∷ cs) m v = run-IsValid cs (call now c m) (call-IsValid laws now c m v)

    pub rate-IsUnit : (q : String) (m : EwmaMonitor F) → IsValid m → IsUnit (rate_of q m)
    unfolding rate_of
    rate-IsUnit q m v = let s = entry-IsSound laws 0 q m v in (s.rate_low, s.rate_high)
