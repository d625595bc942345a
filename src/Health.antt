-- ===== src/Health.antt =====
-- internal/router/router.go: the EWMA health monitor. The map of pointers is a map of records, and
-- a method that writes through the pointer writes the record back; each method holds the locks over
-- its whole body, so it is one step. `now` is `time.Now()` where a method may read it.
pub mod Rates
pub mod Bounds
pub mod Frame
pub mod Traces
pub mod Outage
pub mod Observe
use kenbun.Prelude.{ℕ, ◌/◌, String, Bool, ◌||◌, Option, none, some, [], ℤ, pos, if◌then◌else◌}
use kenbun.Prelude.Map.{Map, lookup, insert}
use kenbun.Float.{Float, zero_float, one_float}

pub data ProviderState : Type 0 where
  healthy degraded unhealthy : ProviderState

pub record ProviderMetrics (F : Type 0) : Type 0 where
  pub latency_ewma : F
  pub error_rate : F
  pub last_update : ℕ
  pub alpha : F

pub record EwmaMonitor (F : Type 0) : Type 0 where
  pub metrics : Map (ProviderMetrics F)

-- `latency.Milliseconds()` of a duration in nanoseconds
abbrev pub milliseconds : ℕ → ℕ
milliseconds latency = latency / 1000000

-- A call of the `HealthMonitor` interface, for the sequences of calls that reach a monitor.
pub data Call : Type 0 where
  success : String → ℕ → Call
  error : String → ℤ → Call
  fail : String → Call
  query : String → Call

-- the provider that a call is about
abbrev pub target : Call → String
target (success name latency) = name
target (error name status) = name
target (fail name) = name
target (query name) = name

module _ {F : Type 0} ⦃d : Float F⦄ where
  open d use {ratio, add, sub, mul, lt, eq, of_int}

  unfoldable pub new_monitor : EwmaMonitor F
  new_monitor = record { metrics = [] }

  unfoldable pub new_metrics : ℕ → ProviderMetrics F
  new_metrics now = record {
    latency_ewma = zero_float;
    error_rate = zero_float;
    last_update = now;
    alpha = ratio 1 10;
  }

  -- A provider that is met for the first time gets an entry.
  unfoldable pub get_metrics : ℕ → String → EwmaMonitor F → EwmaMonitor F × ProviderMetrics F
  unfolding new_metrics
  get_metrics now name m = elim (lookup name m.metrics) [
    | some pm ↦ (m, pm)
    | none ↦ (record { metrics = insert name (new_metrics now) m.metrics }, new_metrics now)
  ]

  -- the write through the pointer
  unfoldable pub write_back : String → ProviderMetrics F → EwmaMonitor F → EwmaMonitor F
  write_back name pm m = record { metrics = insert name pm m.metrics }

  unfoldable pub after_success : ℕ → ProviderMetrics F → ProviderMetrics F
  after_success latency pm =
      let ms = of_int (pos (milliseconds latency)) in
      let keep = sub one_float pm.alpha in
      record pm {
        latency_ewma =
            if eq pm.latency_ewma zero_float
            then ms
            else add (mul pm.alpha ms) (mul keep pm.latency_ewma);
        error_rate = mul keep pm.error_rate;
      }

  unfoldable pub after_error : ProviderMetrics F → ProviderMetrics F
  after_error pm = record pm {
    error_rate = add (mul pm.alpha one_float) (mul (sub one_float pm.alpha) pm.error_rate);
  }

  unfoldable pub after_failure : ProviderMetrics F → ProviderMetrics F
  after_failure pm = record pm { error_rate = one_float }

  unfoldable pub record_success : ℕ → String → ℕ → EwmaMonitor F → EwmaMonitor F
  unfolding get_metrics write_back after_success
  record_success now name latency m =
      let (m', pm) = get_metrics now name m in write_back name (after_success latency pm) m'

  -- The status code is not read.
  unfoldable pub record_error : ℕ → String → ℤ → EwmaMonitor F → EwmaMonitor F
  unfolding get_metrics write_back after_error
  record_error now name status_code m =
      let (m', pm) = get_metrics now name m in write_back name (after_error pm) m'

  unfoldable pub force_failure : ℕ → String → EwmaMonitor F → EwmaMonitor F
  unfolding get_metrics write_back after_failure
  force_failure now name m =
      let (m', pm) = get_metrics now name m in write_back name (after_failure pm) m'

  unfoldable pub state_of : ProviderMetrics F → ProviderState
  state_of pm =
      if lt (ratio 1 2) pm.error_rate
      then unhealthy
      else if lt (ratio 1 5) pm.error_rate || lt (ratio 5000 1) pm.latency_ewma
      then degraded
      else healthy

  unfoldable pub get_state : ℕ → String → EwmaMonitor F → EwmaMonitor F × ProviderState
  unfolding get_metrics state_of
  get_state now name m = let (m', pm) = get_metrics now name m in (m', state_of pm)

  unfoldable pub call : ℕ → Call → EwmaMonitor F → EwmaMonitor F
  unfolding record_success record_error force_failure get_state
  call now (success name latency) m = record_success now name latency m
  call now (error name status) m = record_error now name status m
  call now (fail name) m = force_failure now name m
  call now (query name) m = (get_state now name m).0
