-- ===== src/Selector.antt =====
-- internal/router/selector.go: the provider with the least latency among those that the allowlist
-- admits and the monitor does not hold unhealthy. The monitor is an `EWMAMonitor`, the one
-- implementation that there is, so the type assertion of `getLatency` succeeds.
pub mod Sort
pub mod Registry
pub mod Choice
use mathlib.Core.List.{head?}
use kenbun.Prelude.{
  ℕ, String, Bool, true, false, not, ◌&&◌, Option, none, List, [], ◌∷◌, ◌==◌, if◌then◌else◌,
}
use kenbun.Float.{Float, zero_float}
use kenbun.Health.{EwmaMonitor, ProviderState, healthy, degraded, unhealthy, get_metrics, get_state}

-- the inner loop with its `break`
unfoldable pub listed : String → List String → Bool
listed name [] = false
listed name (a ∷ allowlist) = if a == name then true else listed name allowlist

unfoldable pub is_allowed : String → List String → Bool
unfolding listed
is_allowed name [] = true
is_allowed name (a ∷ allowlist) = listed name (a ∷ allowlist)

abbrev pub is_unhealthy : ProviderState → Bool
is_unhealthy unhealthy = true
is_unhealthy _ = false

-- `candidates[0]` of the sorted candidates, if there are any
unfoldable pub best :
    {P : Type 0} → ((P → P → Bool) → List P → List P) → (P → P → Bool) → List P → Option P
best sort cmp [] = none
best sort cmp (p ∷ ps) = head? (sort cmp (p ∷ ps))

module _ {F : Type 0} ⦃d : Float F⦄ where
  unfoldable pub get_latency : ℕ → String → EwmaMonitor F → EwmaMonitor F × F
  unfolding get_metrics
  get_latency now name m =
      let (m', pm) = get_metrics now name m in
      (m', if d.eq pm.latency_ewma zero_float then d.max_float else pm.latency_ewma)

  module _ {P : Type 0} (name : P → String) where
    -- The filter. The state of a provider that is not allowed is not asked for.
    unfoldable pub candidates : ℕ → List String → List P → EwmaMonitor F → EwmaMonitor F × List P
    unfolding get_state is_allowed
    candidates now allowlist [] m = (m, [])
    candidates now allowlist (p ∷ ps) m =
        let asked = get_state now (name p) m in
        let allowed = is_allowed (name p) allowlist in
        let m' = if allowed then asked.0 else m in
        let (m'', rest) = candidates now allowlist ps m' in
        (m'', if allowed && not (is_unhealthy asked.1) then p ∷ rest else rest)

    -- the comparison that is handed to `sort.Slice`
    unfoldable pub less : ℕ → EwmaMonitor F → P → P → Bool
    unfolding get_latency
    less now m p q = d.lt (get_latency now (name p) m).1 (get_latency now (name q) m).1

    -- `sort.Slice` is a parameter; it is given the comparison and returns the sorted slice.
    unfoldable pub select :
        ((P → P → Bool) → List P → List P)
        → ℕ
        → List P
        → List String
        → EwmaMonitor F
        → EwmaMonitor F × Option P
    unfolding candidates less best
    select sort now providers allowlist m =
        let (m', found) = candidates now allowlist providers m in
        (m', best sort (less now m') found)
