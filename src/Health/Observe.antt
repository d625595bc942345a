-- ===== src/Health/Observe.antt =====
-- What a reader sees of a monitor: two numbers for each provider, which queries never change.
use kenbun.Prelude.{
  ℕ, String, ◌≡◌, refl, ◌∙◌, ap, ◌||◌, Option, none, some, Bool-cases, inl, inr, if◌then◌else◌,
  ◌==◌,
}
use kenbun.Prelude.Map.{lookup}
use kenbun.Float.{Float, IsIeee, NonNeg}
use kenbun.Health.{
  ProviderMetrics, EwmaMonitor, ProviderState, healthy, degraded, unhealthy, new_metrics,
  get_metrics, get_state,
}
use kenbun.Health.Frame.{entry, get_metrics-entry, lookup-get_metrics}
use kenbun.Health.Bounds.{IsValid, entry-IsSound}
use kenbun.Health.Traces.{rate_of}

module _ {F : Type 0} ⦃d : Float F⦄ where
  unfoldable pub latency_of : String → EwmaMonitor F → F
  latency_of q m = (entry 0 (lookup q m.metrics)).latency_ewma

  -- the state of a provider with these numbers
  unfoldable pub classify : F → F → ProviderState
  classify rate latency =
      if d.lt (d.ratio 1 2) rate
      then unhealthy
      else if d.lt (d.ratio 1 5) rate || d.lt (d.ratio 5000 1) latency
      then degraded
      else healthy

  -- the two monitors show the same numbers
  pub record IsAlike (m n : EwmaMonitor F) : Type 0 where
    pub rates : (q : String) → rate_of q m ≡ rate_of q n
    pub latencies : (q : String) → latency_of q m ≡ latency_of q n

  pub IsAlike-refl : (m : EwmaMonitor F) → IsAlike m m
  IsAlike-refl m = record { rates = λ q. refl; latencies = λ q. refl }

  pub IsAlike-trans : (l m n : EwmaMonitor F) → IsAlike l m → IsAlike m n → IsAlike l n
  IsAlike-trans l m n a b = record {
    rates = λ q. a.rates q ∙ b.rates q;
    latencies = λ q. a.latencies q ∙ b.latencies q;
  }

  entry-numbers :
      (now : ℕ) (o : Option (ProviderMetrics F))
      → ((entry now o).error_rate ≡ (entry 0 o).error_rate)
        × ((entry now o).latency_ewma ≡ (entry 0 o).latency_ewma)
  unfolding entry new_metrics
  entry-numbers now none = (refl, refl)
  entry-numbers now (some pm) = (refl, refl)

  entry-twice :
      (now : ℕ) (o : Option (ProviderMetrics F)) → entry 0 (some (entry now o)) ≡ entry now o
  unfolding entry
  entry-twice now o = refl

  -- Asking for the record of a provider shows a reader nothing new.
  pub get_metrics-IsAlike :
      (now : ℕ) (name : String) (m : EwmaMonitor F) → IsAlike (get_metrics now name m).0 m
  unfolding rate_of latency_of
  get_metrics-IsAlike now name m = record {
    rates = λ q. same (λ pm. pm.error_rate) q (entry-numbers now (lookup q m.metrics)).0;
    latencies = λ q. same (λ pm. pm.latency_ewma) q (entry-numbers now (lookup q m.metrics)).1;
  }
    where
      same :
          (f : ProviderMetrics F → F) (q : String)
          → f (entry now (lookup q m.metrics)) ≡ f (entry 0 (lookup q m.metrics))
          → f (entry 0 (lookup q (get_metrics now name m).0.metrics))
            ≡ f (entry 0 (lookup q m.metrics))
      same f q e =
          let found = lookup-get_metrics now name q m in
          let read : Option (ProviderMetrics F) → F = λ o. f (entry 0 o) in
          elim (Bool-cases (name == q)) [
            | inl hit ↦ ap read (rw hit at found) ∙ ap f (entry-twice now (lookup q m.metrics)) ∙ e
            | inr miss ↦ ap read (rw miss at found)
          ]

  -- `GetState` answers from the two numbers alone, whether or not the provider is known.
  pub get_state-classify :
      (now : ℕ) (q : String) (m : EwmaMonitor F)
      → (get_state now q m).1 ≡ classify (rate_of q m) (latency_of q m)
  unfolding get_state classify rate_of latency_of
  get_state-classify now q m =
      let e = get_metrics-entry now q m in
      let (a, b) = entry-numbers now (lookup q m.metrics) in rw (e, a, b)

  pub get_state-IsAlike :
      (now : ℕ) (name : String) (m : EwmaMonitor F) → IsAlike (get_state now name m).0 m
  unfolding get_state
  get_state-IsAlike = get_metrics-IsAlike

  pub classify-IsAlike :
      (now : ℕ) (q : String) (m n : EwmaMonitor F)
      → IsAlike m n
      → (get_state now q m).1 ≡ (get_state now q n).1
  classify-IsAlike now q m n a =
      rw (get_state-classify now q m, get_state-classify now q n, a.rates q, a.latencies q)

  pub NonNeg-latency_of :
      IsIeee F → (q : String) (m : EwmaMonitor F) → IsValid m → NonNeg (latency_of q m)
  unfolding latency_of
  NonNeg-latency_of laws q m v = (entry-IsSound laws 0 q m v).latency_low

  pub get_metrics-latency :
      (now : ℕ) (q : String) (m : EwmaMonitor F)
      → (get_metrics now q m).1.latency_ewma ≡ latency_of q m
  unfolding latency_of
  get_metrics-latency now q m =
      ap (λ pm. pm.latency_ewma) (get_metrics-entry now q m)
      ∙ (entry-numbers now (lookup q m.metrics)).1
