-- ===== src/Health/Frame.antt =====
-- The monitor against its contract: a store of one record for each provider name.
use kenbun.Prelude.{ℕ, String, ◌≡◌, Option, none, some, if◌then◌else◌, ◌==◌, arith, eq_iff}
use kenbun.Prelude.Map.{lookup, lookup-insert}
use kenbun.Float.{Float}
use kenbun.Health.{
  ProviderMetrics, EwmaMonitor, new_metrics, get_metrics, write_back, after_success, after_error,
  after_failure, Call, success, error, fail, query, target, call,
}

module _ {F : Type 0} ⦃d : Float F⦄ where
  -- what a method finds for a name
  unfoldable pub entry : ℕ → Option (ProviderMetrics F) → ProviderMetrics F
  entry now none = new_metrics now
  entry now (some pm) = pm

  -- what a call makes of the record of its provider
  unfoldable pub effect : Call → ProviderMetrics F → ProviderMetrics F
  effect (success name latency) pm = after_success latency pm
  effect (error name status) pm = after_error pm
  effect (fail name) pm = after_failure pm
  effect (query name) pm = pm

  pub get_metrics-entry :
      (now : ℕ) (name : String) (m : EwmaMonitor F)
      → (get_metrics now name m).1 ≡ entry now (lookup name m.metrics)
  unfolding get_metrics entry
  get_metrics-entry now name m = ground arith

  pub lookup-get_metrics :
      (now : ℕ) (name q : String) (m : EwmaMonitor F)
      → lookup q (get_metrics now name m).0.metrics
        ≡ (if name == q then some (entry now (lookup q m.metrics)) else lookup q m.metrics)
  unfolding get_metrics entry
  lookup-get_metrics now name q m =
      ground (arith, lookup-insert name q (new_metrics now) m.metrics, eq_iff name q)

  pub lookup-write_back :
      (name q : String) (pm : ProviderMetrics F) (m : EwmaMonitor F)
      → lookup q (write_back name pm m).metrics
        ≡ (if name == q then some pm else lookup q m.metrics)
  unfolding write_back
  lookup-write_back name q pm m = lookup-insert name q pm m.metrics

  lookup-update :
      (f : ProviderMetrics F → ProviderMetrics F) (now : ℕ) (name q : String) (m : EwmaMonitor F)
      → let (m', pm) = get_metrics now name m in
        lookup q (write_back name (f pm) m').metrics
        ≡ (if name == q then some (f (entry now (lookup q m.metrics))) else lookup q m.metrics)
  lookup-update f now name q m =
      let (m', pm) = get_metrics now name m in
      ground (
        arith,
        lookup-write_back name q (f pm) m',
        lookup-get_metrics now name q m,
        get_metrics-entry now name m,
        eq_iff name q,
      )

  -- After a call, the record of the call's provider is what the call makes of the record found
  -- there (a new one, if there was none), and the record of every other provider is as before.
  pub lookup-call :
      (now : ℕ) (c : Call) (q : String) (m : EwmaMonitor F)
      → lookup q (call now c m).metrics ≡ (
          if target c == q
          then some (effect c (entry now (lookup q m.metrics)))
          else lookup q m.metrics)
  unfolding call effect
  lookup-call now (success name latency) q m = lookup-update (after_success latency) now name q m
  lookup-call now (error name status) q m = lookup-update after_error now name q m
  lookup-call now (fail name) q m = lookup-update after_failure now name q m
  lookup-call now (query name) q m = lookup-get_metrics now name q m
