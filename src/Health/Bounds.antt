-- ===== src/Health/Bounds.antt =====
-- The numbers that the monitor keeps stay in their ranges.
use kenbun.Prelude.{
  ℕ, String, ◌≡◌, Bool-cases, some, inl, inr, arith, ◌==◌, Option-cases, refl, sym, ◌∙◌, pos,
}
use mathlib.Core.Option.{some-injective}
use kenbun.Prelude.Map.{lookup}
use kenbun.Float.{Float, IsIeee, ◌≼◌, zero_float, one_float, NonNeg}
use kenbun.Float.Laws
use kenbun.Health.{
  ProviderMetrics, EwmaMonitor, new_metrics, after_success, after_error, after_failure,
  milliseconds, Call, success, error, fail, query, target, call,
}
use kenbun.Health.Frame.{entry, effect, lookup-call}
use kenbun.Health.Rates.{
  tenth, rest, fade, build, IsUnit-fade, IsUnit-build, rest_pos, rest-le-max, tenth_pos,
  tenth-le-max,
}

module _ {F : Type 0} ⦃d : Float F⦄ where
  -- the smoothing factor is a tenth, the error rate lies in [0, 1], the latency is a number
  pub record IsSound (pm : ProviderMetrics F) : Type 0 where
    pub alpha : pm.alpha ≡ d.ratio 1 10
    pub rate_low : zero_float ≼ pm.error_rate
    pub rate_high : pm.error_rate ≼ one_float
    pub latency_low : zero_float ≼ pm.latency_ewma

  abbrev pub IsValid : EwmaMonitor F → Type 0
  IsValid m = (q : String) (pm : ProviderMetrics F) → lookup q m.metrics ≡ some pm → IsSound pm

  module _ (laws : IsIeee F) where
    new_metrics-IsSound : (now : ℕ) → IsSound (new_metrics now)
    unfolding new_metrics
    new_metrics-IsSound now = record {
      alpha = refl;
      rate_low = (Laws.IsUnit-zero laws).0;
      rate_high = (Laws.IsUnit-zero laws).1;
      latency_low = (Laws.IsUnit-zero laws).0;
    }

    after_success-IsSound :
        (latency : ℕ) (pm : ProviderMetrics F) → IsSound pm → IsSound (after_success latency pm)
    unfolding after_success fade
    after_success-IsSound latency pm h =
        let u = IsUnit-fade laws pm.error_rate (h.rate_low, h.rate_high) in
        record {
          alpha = h.alpha;
          rate_low = rw h.alpha u.0;
          rate_high = rw h.alpha u.1;
          latency_low = rw h.alpha (ground (arith, fresh, mixed));
        }
      where
        ms : F
        ms = d.of_int (pos (milliseconds latency))

        fresh : NonNeg ms
        fresh = Laws.NonNeg-of_int laws (milliseconds latency)

        mixed : NonNeg (d.add (d.mul tenth ms) (d.mul rest pm.latency_ewma))
        mixed =
            Laws.NonNeg-add laws (d.mul tenth ms) (d.mul rest pm.latency_ewma)
              (Laws.NonNeg-mul laws tenth ms (tenth_pos laws) (tenth-le-max laws) fresh)
              (Laws.NonNeg-mul laws rest pm.latency_ewma (rest_pos laws) (rest-le-max laws)
                h.latency_low)

    after_error-IsSound : (pm : ProviderMetrics F) → IsSound pm → IsSound (after_error pm)
    unfolding after_error build
    after_error-IsSound pm h =
        let u = IsUnit-build laws pm.error_rate (h.rate_low, h.rate_high) in
        record {
          alpha = h.alpha;
          rate_low = rw h.alpha u.0;
          rate_high = rw h.alpha u.1;
          latency_low = h.latency_low;
        }

    after_failure-IsSound : (pm : ProviderMetrics F) → IsSound pm → IsSound (after_failure pm)
    unfolding after_failure
    after_failure-IsSound pm h = record {
      alpha = h.alpha;
      rate_low = (Laws.IsUnit-one laws).0;
      rate_high = (Laws.IsUnit-one laws).1;
      latency_low = h.latency_low;
    }

    pub entry-IsSound :
        (now : ℕ) (q : String) (m : EwmaMonitor F)
        → IsValid m
        → IsSound (entry now (lookup q m.metrics))
    unfolding entry
    entry-IsSound now q m v = elim (Option-cases (lookup q m.metrics)) [
      | inl e ↦ rw e (new_metrics-IsSound now)
      | inr (pm, e) ↦ rw e (v q pm e)
    ]

    effect-IsSound : (c : Call) (pm : ProviderMetrics F) → IsSound pm → IsSound (effect c pm)
    unfolding effect
    effect-IsSound (success name latency) pm h = after_success-IsSound latency pm h
    effect-IsSound (error name status) pm h = after_error-IsSound pm h
    effect-IsSound (fail name) pm h = after_failure-IsSound pm h
    effect-IsSound (query name) pm h = h

    -- Every call keeps the error rate of every provider in [0, 1], its latency a number that is not
    -- negative, and its smoothing factor.
    pub call-IsValid : (now : ℕ) (c : Call) (m : EwmaMonitor F) → IsValid m → IsValid (call now c m)
    call-IsValid now c m v q pm e =
        let found = lookup-call now c q m in
        elim (Bool-cases (target c == q)) [
          | inl hit ↦
              rw (some-injective _ _ (sym e ∙ (rw hit at found)))
                (effect-IsSound c (entry now (lookup q m.metrics)) (entry-IsSound now q m v))
          | inr miss ↦ v q pm (sym (rw miss at found) ∙ e)
        ]
