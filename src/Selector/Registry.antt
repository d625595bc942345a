-- ===== src/Selector/Registry.antt =====
-- What selection does to the monitor: it registers the candidates and shows a reader nothing new,
-- so the comparison that sorts them, which may create entries, creates none.
use kenbun.Prelude.{
  ℕ, String, ◌≡◌, refl, ◌∙◌, Bool, true, false, not, ◌&&◌, some, Bool-cases, inl, inr, List, [],
  ◌∷◌, All, keep, keep-congr, if◌then◌else◌, ◌==◌, arith,
}
use kenbun.Prelude.Map.{lookup}
use kenbun.Float.{Float}
use kenbun.Health.{EwmaMonitor, ProviderMetrics, get_state}
use kenbun.Health.Frame.{entry, lookup-get_metrics}
use kenbun.Health.Observe.{
  IsAlike, IsAlike-refl, IsAlike-trans, get_state-IsAlike, classify-IsAlike,
}
use kenbun.Selector.{is_allowed, is_unhealthy, get_latency, candidates}
use text.Mathlib.TextPositions.{eq_refl}

module _ {F : Type 0} ⦃d : Float F⦄ where
  -- the monitor has an entry for the provider
  abbrev pub IsKnown : String → EwmaMonitor F → Type 0
  IsKnown q m = (pm : ProviderMetrics F) × (lookup q m.metrics ≡ some pm)

  get_state-IsKnown : (now : ℕ) (q : String) (m : EwmaMonitor F) → IsKnown q (get_state now q m).0
  unfolding get_state
  get_state-IsKnown now q m =
      (entry now (lookup q m.metrics), lookup-get_metrics now q q m ∙ (rw (eq_refl q)))

  get_state-keeps :
      (now : ℕ) (name q : String) (m : EwmaMonitor F)
      → IsKnown q m
      → IsKnown q (get_state now name m).0
  unfolding get_state
  get_state-keeps now name q m (pm, e) = elim (Bool-cases (name == q)) [
    | inl hit ↦ (entry now (lookup q m.metrics), lookup-get_metrics now name q m ∙ (rw hit))
    | inr miss ↦ (pm, lookup-get_metrics now name q m ∙ (rw miss) ∙ e)
  ]

  get_latency-known :
      (now : ℕ) (q : String) (m : EwmaMonitor F) → IsKnown q m → (get_latency now q m).0 ≡ m
  unfolding get_latency
  get_latency-known now q m (pm, e) = ground arith

  module _ {P : Type 0} (name : P → String) (now : ℕ) (allowlist : List String) where
    -- allowed, and not unhealthy
    unfoldable pub eligible : EwmaMonitor F → P → Bool
    eligible m p = is_allowed (name p) allowlist && not (is_unhealthy (get_state now (name p) m).1)

    eligible-IsAlike : (m n : EwmaMonitor F) (p : P) → IsAlike m n → eligible m p ≡ eligible n p
    unfolding eligible
    eligible-IsAlike m n p a = rw (classify-IsAlike now (name p) m n a)

    asked-IsAlike :
        (b : Bool) (p : P) (m : EwmaMonitor F)
        → IsAlike (if b then (get_state now (name p) m).0 else m) m
    asked-IsAlike true p m = get_state-IsAlike now (name p) m
    asked-IsAlike false p m = IsAlike-refl m

    pub candidates-IsAlike :
        (ps : List P) (m : EwmaMonitor F) → IsAlike (candidates name now allowlist ps m).0 m
    unfolding candidates
    candidates-IsAlike [] m = IsAlike-refl m
    candidates-IsAlike (p ∷ ps) m =
        let allowed = is_allowed (name p) allowlist in
        let m' = if allowed then (get_state now (name p) m).0 else m in
        IsAlike-trans _ m' m (candidates-IsAlike ps m') (asked-IsAlike allowed p m)

    -- The candidates are the eligible providers in their order, judged by the monitor as it was
    -- before the loop.
    pub candidates-keep :
        (ps : List P) (m : EwmaMonitor F)
        → (candidates name now allowlist ps m).1 ≡ keep (eligible m) ps
    unfolding candidates eligible
    candidates-keep [] m = refl
    candidates-keep (p ∷ ps) m =
        let allowed = is_allowed (name p) allowlist in
        let m' = if allowed then (get_state now (name p) m).0 else m in
        let same = λ (q : P). eligible-IsAlike m' m q (asked-IsAlike allowed p m) in
        let rest = candidates-keep ps m' ∙ keep-congr (eligible m') (eligible m) same ps in rw rest

    asked-keeps :
        (b : Bool) (p : P) (q : String) (m : EwmaMonitor F)
        → IsKnown q m
        → IsKnown q (if b then (get_state now (name p) m).0 else m)
    asked-keeps true p q m k = get_state-keeps now (name p) q m k
    asked-keeps false p q m k = k

    candidates-keeps :
        (ps : List P) (q : String) (m : EwmaMonitor F)
        → IsKnown q m
        → IsKnown q (candidates name now allowlist ps m).0
    unfolding candidates
    candidates-keeps [] q m k = k
    candidates-keeps (p ∷ ps) q m k =
        let allowed = is_allowed (name p) allowlist in
        let m' = if allowed then (get_state now (name p) m).0 else m in
        candidates-keeps ps q m' (asked-keeps allowed p q m k)

    asked-IsKnown :
        (b bad : Bool) (p : P) (m : EwmaMonitor F)
        → (b && bad) ≡ true
        → IsKnown (name p) (if b then (get_state now (name p) m).0 else m)
    asked-IsKnown true bad p m h = get_state-IsKnown now (name p) m
    asked-IsKnown false bad p m h = cc

    candidates-IsKnown :
        (ps : List P) (m : EwmaMonitor F)
        → let (m', found) = candidates name now allowlist ps m in
          All (λ p. IsKnown (name p) m') found
    unfolding candidates eligible
    candidates-IsKnown [] m = tt
    candidates-IsKnown (p ∷ ps) m =
        let allowed = is_allowed (name p) allowlist in
        let m' = if allowed then (get_state now (name p) m).0 else m in
        let rest = candidates-IsKnown ps m' in
        elim (Bool-cases (allowed && not (is_unhealthy (get_state now (name p) m).1))) [
          | inl good ↦
              rw good (candidates-keeps ps (name p) m' (asked-IsKnown allowed _ p m good), rest)
          | inr bad ↦ rw bad rest
        ]

    read-known :
        (m : EwmaMonitor F) (ps : List P)
        → All (λ p. IsKnown (name p) m) ps
        → All (λ p. (get_latency now (name p) m).0 ≡ m) ps
    read-known m [] k = tt
    read-known m (p ∷ ps) (k, ks) = (get_latency-known now (name p) m k, read-known m ps ks)

    -- Sorting has no side effect: every read of a latency that the comparison can make of two
    -- candidates leaves the monitor as the filter left it, though `getLatency` may create entries.
    pub sorting_reads :
        (ps : List P) (m : EwmaMonitor F)
        → let (m', found) = candidates name now allowlist ps m in
          All (λ p. (get_latency now (name p) m').0 ≡ m') found
    sorting_reads ps m =
        let (m', found) = candidates name now allowlist ps m in
        read-known m' found (candidates-IsKnown ps m)
