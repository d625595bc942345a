-- ===== src/Tests.antt =====
-- Runs of the monitor, the selector, the limiter and the budget at concrete inputs, in fixed point.
pub mod Limits
pub mod Providers
pub mod Requests
pub mod Admins
pub mod Streaming
pub mod Adapters
pub mod Tables
pub mod Budgets
pub mod Traffic
pub mod Servers
pub mod Orders
pub mod Keys
use mathlib.Core.List.{Mem}
use kenbun.Health.Outage.{Lacks, count, is_error_of, is_success_of, is_fail_of}
use kenbun.Prelude.{
  ◌↔◌, keep, All, ℕ, String, ◌≡◌, ◌≢◌, refl, Bool, true, false, Option, some, none, List, [], ◌∷◌,
  ℤ, pos, ◌≤ℤ◌, ◌+ℤ◌, arith, ◌^◌, ◌==◌, if◌then◌else◌,
}
use kenbun.Prelude.Map.{Map, lookup, insert}
use kenbun.Float.{Float}
use kenbun.Float.Fixed.{Fixed, fixed_float, Fixed-IsIeee}
use kenbun.Health.{
  EwmaMonitor, Call, success, error, fail, query, call, new_monitor, get_state, unhealthy,
  record_success, record_error, force_failure, get_metrics, write_back, after_success, after_error,
  after_failure, state_of, new_metrics,
}
use kenbun.Health.Bounds.{IsValid, call-IsValid}
use kenbun.Health.Traces.{run, run-IsValid}
use kenbun.Health.Frame.{effect, entry, lookup-call}
use kenbun.Health.Rates.{build, fade}
use kenbun.Health.Outage.{builds, fades, errors-unhealthy, fail-unhealthy, successes-recover}
use kenbun.Selector.{select, candidates, less, best, get_latency, is_allowed, listed}
use kenbun.Selector.Sort.{insertion_sort, insertion_sort-IsSort, put_in}
use kenbun.Selector.Registry.{eligible, candidates-keep, sorting_reads}
use kenbun.Selector.Choice.{ranking, select-some, select-none}

pub IsValid-start : IsValid (new_monitor {F = Fixed})
unfolding new_monitor lookup
IsValid-start q pm e = cc

-- one good provider and one that was failed by hand
abbrev pub history : List (ℕ × Call)
history = (1, success "openai" 80000000) ∷ (2, success "gemini" 120000000) ∷ (3, fail "openai") ∷ []

abbrev pub names : List String
names = "openai" ∷ "gemini" ∷ []

abbrev pub seasoned : EwmaMonitor Fixed
seasoned = run history new_monitor

pub IsValid-seasoned : IsValid seasoned
IsValid-seasoned = run-IsValid Fixed-IsIeee history new_monitor IsValid-start

selects : (select (λ (n : String). n) insertion_sort 9 names [] seasoned).1 ≡ some "gemini"
unfolding run call record_success record_error force_failure get_state get_metrics write_back
    after_success after_error after_failure state_of new_metrics select candidates less best
    get_latency is_allowed listed lookup insert insertion_sort put_in new_monitor
selects = refl

select-some_example :
    Mem "gemini" names
    × (eligible (λ (n : String). n) 9 [] seasoned "gemini" ≡ true)
    × ((q : String)
        → Mem q names
        → eligible (λ (n : String). n) 9 [] seasoned q ≡ true
        → fixed_float.lt (ranking q seasoned) (ranking "gemini" seasoned) ≡ false)
select-some_example =
    select-some Fixed-IsIeee (λ (n : String). n) insertion_sort insertion_sort-IsSort 9 names []
      seasoned IsValid-seasoned selects

-- seven errors in a row, with calls about another provider between them
abbrev errors : List (ℕ × Call)
errors =
    (1, error "openai" (pos 500))
    ∷ (2, error "openai" (pos 500))
    ∷ (3, success "gemini" 900)
    ∷ (4, error "openai" (pos 500))
    ∷ (5, error "openai" (pos 500))
    ∷ (6, query "openai")
    ∷ (7, error "openai" (pos 500))
    ∷ (8, error "openai" (pos 500))
    ∷ (9, error "openai" (pos 500))
    ∷ []

no_success : Lacks (is_success_of "openai") errors
no_success = (refl, (refl, (refl, (refl, (refl, (refl, (refl, (refl, (refl, tt)))))))))

errors_suffice : fixed_float.lt 500000 (builds (count (is_error_of "openai") errors)) ≡ true
unfolding builds build
errors_suffice = refl

errors-unhealthy_example :
    (get_state {F = Fixed} 10 "openai" (run errors new_monitor)).1 ≡ unhealthy
errors-unhealthy_example =
    errors-unhealthy Fixed-IsIeee "openai" errors 10 new_monitor IsValid-start no_success
      errors_suffice

abbrev successes : List (ℕ × Call)
successes =
    (1, success "openai" 900)
    ∷ (2, success "openai" 900)
    ∷ (3, error "gemini" (pos 500))
    ∷ (4, success "openai" 900)
    ∷ (5, success "openai" 900)
    ∷ (6, success "openai" 900)
    ∷ (7, success "openai" 900)
    ∷ (8, success "openai" 900)
    ∷ []

no_error : Lacks (is_error_of "openai") successes
no_error = (refl, (refl, (refl, (refl, (refl, (refl, (refl, (refl, tt))))))))

no_failure : Lacks (is_fail_of "openai") successes
no_failure = (refl, (refl, (refl, (refl, (refl, (refl, (refl, (refl, tt))))))))

successes_suffice : fixed_float.le (fades (count (is_success_of "openai") successes)) 500000 ≡ true
unfolding fades fade
successes_suffice = refl

successes-recover_example :
    (get_state {F = Fixed} 10 "openai" (run successes seasoned)).1 ≢ unhealthy
successes-recover_example =
    successes-recover Fixed-IsIeee "openai" successes 10 seasoned IsValid-seasoned no_error
      no_failure successes_suffice
