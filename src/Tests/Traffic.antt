-- ===== src/Tests/Traffic.antt =====
-- Requests to the gateway that are served at the same time, at concrete inputs.
use kenbun.Prelude.{
  zero, suc, ℕ, ◌≤◌, quot, rem, ◌≡◌, refl, List, [], ◌∷◌, ◌++◌, length, map, arith,
}
use kenbun.Prelude.Map.{lookup, insert}
use kenbun.Float.Fixed.{Fixed, fixed_float, Fixed-IsIeee}
use kenbun.Health.{call, new_monitor}
use kenbun.Selector.Sort.{insertion_sort, insertion_sort-IsSort}
use kenbun.RateLimit.{new_token_bucket, cap_tokens, grown}
use kenbun.RateLimit.Burst.{Request}
use kenbun.Health.Traces.{run}
use kenbun.Provider.{ChatRequest}
use kenbun.Cache.{memory_get, memory_set}
use kenbun.Logging.{LogEvent}
use kenbun.Exchange.{HttpRequest, Clock}
use kenbun.Gateway.{budget_exhausted}
use kenbun.Concurrent.{arrive, interleave}
use kenbun.Concurrent.Counts.{total, recorded, recordable}
use kenbun.Concurrent.Records.{interleave-recorded}
use kenbun.Concurrent.Left.{steps_left}
use kenbun.Concurrent.Progress.{IsDone, interleave-IsDone}
use kenbun.Concurrent.Pending.{records_of}
use kenbun.Concurrent.Calls.{allow_at, allow_calls}
use kenbun.Concurrent.Admission.{interleave-admitted}
use kenbun.Provider.{Outcome, ok}
use kenbun.Prelude.{String, some}
use kenbun.Budget.{start}
use kenbun.Budget.Faults.{Unfailing}
use kenbun.Budget.Account.{Deal, owe_costs, Lossless, deal_all, account_of}
use kenbun.Postgres.{update_spend}
use kenbun.Postgres.Charges.{spent_in, KnownIn}
use kenbun.Pipeline.{written, delivered}
use kenbun.Pipeline.Interleaved.{IsRoundTrip, costs_of, interleave-charged}
use kenbun.Tests.Tables.{errors, database, in_order}
use kenbun.Tests.Requests.{acme, desk, noon, asked, stranger, morning}

-- a clock whose readings in `Allow` are the same
abbrev pub one_o_clock : Clock
one_o_clock = record noon { created = 102 }

abbrev pub crowd : List (Clock × HttpRequest ChatRequest)
crowd = (one_o_clock, asked) ∷ (one_o_clock, stranger) ∷ (one_o_clock, asked) ∷ []

-- the three requests take turns; the third is left with its answer to be written to the cache
abbrev pub turns : List ℕ
turns = 0 ∷ 1 ∷ 2 ∷ 2 ∷ 0 ∷ 1 ∷ 0 ∷ 2 ∷ 2 ∷ 0 ∷ 0 ∷ 2 ∷ []

interleave-recorded_example :
    let (w', ks) = interleave desk turns morning (map arrive crowd) in
    (es : List (LogEvent Fixed)) × (w'.log ≡ [] ++ es)
    × (total recorded ks ≤ length es)
    × (length es ≤ total recordable ks)
interleave-recorded_example = interleave-recorded desk turns crowd morning

abbrev limits : List Request
limits = ("acme", 60) ∷ ("acme", 60) ∷ []

called : allow_calls desk turns morning (map arrive crowd) ≡ map (allow_at 102) limits
unfolding allow_calls lookup insert memory_get memory_set cap_tokens grown new_token_bucket quot rem
    run call new_monitor insertion_sort budget_exhausted
called = refl

interleave-admitted_example :
    let w' = (interleave desk turns morning (map arrive crowd)).0 in
    (es : List (LogEvent Fixed)) × (w'.log ≡ [] ++ es) × (records_of "acme" es ≤ 60)
unfolding new_token_bucket lookup
interleave-admitted_example =
    interleave-admitted desk "acme" Fixed-IsIeee 102 60 limits turns crowd morning (omega arith)
      (omega arith) called ((omega arith, λ e. refl), ((omega arith, λ e. refl), tt)) (λ q b e. cc)

-- records that are sent as they are
abbrev encoded : LogEvent Fixed → Outcome String (LogEvent Fixed)
encoded e = ok e

abbrev as_sent : IsRoundTrip {V = LogEvent Fixed} {Z = String} encoded (λ e. some e)
as_sent = record { payload = λ e. e; marshals = λ e. refl; decodes = λ e. refl }

interleave-charged_example :
    let (w', ks) = interleave desk turns morning (map arrive crowd) in
    let (m', db', returned) =
      start
        (update_spend errors)
        (λ m. m)
        (delivered (λ e. some e) (written encoded w'.log))
        []
        database in
    let account = account_of {F = Fixed} (update_spend errors) (λ m. m) spent_in KnownIn "acme" in
    (deals : List (Deal Fixed)) × (account (m', db') ≡ deal_all deals (account ([], database)))
    × (owe_costs deals ≡ costs_of "acme" w'.log)
    × (total recorded ks ≤ length w'.log)
    × (length w'.log ≤ total recordable ks)
    × (Unfailing {F = Fixed}
          (update_spend errors)
          (λ m. m)
          "acme"
          (delivered (λ e. some e) (written encoded w'.log))
          []
          database
        → Lossless deals)
interleave-charged_example =
    interleave-charged desk encoded (λ e. some e) as_sent errors (λ m. m) in_order turns crowd
      morning "acme" database refl (acme, refl)

-- as many turns of the third request and of the first, one after the other
abbrev alternating : ℕ → List ℕ
alternating zero = []
alternating (suc n) = 2 ∷ 0 ∷ alternating n

interleave-IsDone_example : IsDone 0 (interleave desk (alternating 30) morning (map arrive crowd)).1
unfolding steps_left
interleave-IsDone_example =
    interleave-IsDone desk insertion_sort-IsSort 0 (alternating 30) crowd morning (omega arith)
