-- ===== src/Tests/Budgets.antt =====
-- Budgets across the database and the caches, the statistics, and the wiring, at concrete inputs.
use mathlib.Core.Bool.{false≢true}
use kenbun.Prelude.{eq_iff, ℕ, ◌≡◌, ◌≢◌, refl, String, true, none, some, List, [], ◌∷◌, pos, ◌+ℤ◌}
use kenbun.Prelude.Map.{lookup}
use kenbun.Float.Fixed.{Fixed, fixed_float}
use kenbun.Provider.{Outcome, Message, ChatRequest, ok, err}
use kenbun.Exchange.{Tenant, Clock, HttpRequest, refused, present}
use kenbun.Logging.{LogEvent}
use kenbun.Budget.Ledger.{IsIteration}
use kenbun.Cache.{memory_get}
use kenbun.Gateway.{budget_exhausted, authenticate, serve_http}
use kenbun.Gateway.Checks.{SameGuards, SameLogs}
use kenbun.Gateway.Budgets.{charged_out-refused}
use kenbun.Gateway.Stale.{on_memory, serve_later, memory_tenant-stale}
use kenbun.Postgres.{charge, update_tenant_spend, get_tenant_by_api_key_hash}
use kenbun.Analytics.Charts.{Ascending, requests_of, chart-Ascending}
use kenbun.Analytics.{ChartPoint, get_chart_data, TenantStats, rows_of, get_tenant_stats}
use kenbun.Analytics.Models.{counted, uses_of, tenant_stats-counted}
use kenbun.Tests.Requests.{acme, Desk, desk, noon, morning, asked, stranger}
use kenbun.Tests.Tables.{errors, logged}

-- the table after a charge of 60 cents, which the gateway reads
abbrev charged : List Tenant
charged = charge (pos 60) acme ∷ []

abbrev on_table : Desk
on_table = record desk { find_tenant = λ hash. get_tenant_by_api_key_hash errors none hash charged }

charges : update_tenant_spend errors none "acme" (pos 60) (acme ∷ []) ≡ (charged, none)
unfolding update_tenant_spend ◌+ℤ◌
charges = refl

spent_out : budget_exhausted (charge (pos 60) acme) ≡ true
unfolding budget_exhausted ◌+ℤ◌
spent_out = refl

uncached : present (on_table.cache.get 100 (on_table.tenant_key "secret") morning.store).1 ≡ none
unfolding memory_get lookup
uncached = refl

charged_out-refused_example :
    let (w', reply) = serve_http on_table noon asked morning in
    (reply ≡ refused 402 "budget_exhausted") × SameGuards morning w' × SameLogs morning w'
charged_out-refused_example =
    charged_out-refused on_table noon errors asked (pos 60) (acme ∷ []) charged acme morning refl
      refl charges spent_out refl uncached

new_key : lookup (desk.tenant_key "secret") morning.store ≡ none
unfolding lookup
new_key = refl

-- a database that has lost its rows
abbrev lost : String → Outcome String Tenant
lost hash = err "no rows"

abbrev later_requests : List ((String → Outcome String Tenant) × Clock × HttpRequest ChatRequest)
later_requests = (lost, noon, asked) ∷ (lost, noon, stranger) ∷ []

other_keys : (id model : String) (messages : List Message) → ◌≢◌ {A = String} "answer" "secret"
other_keys id model messages e = false≢true ((eq_iff "answer" "secret").1 e)

-- The database has forgotten the tenant by the later requests.
memory_tenant-stale_example :
    let (w1, found) = authenticate (on_memory desk desk.find_tenant) noon "secret" morning in
    (found ≡ ok (some acme))
    × ((authenticate (on_memory desk lost) noon "secret" (serve_later desk later_requests w1)).1
        ≡ ok (some acme))
memory_tenant-stale_example =
    memory_tenant-stale desk noon noon "secret" acme desk.find_tenant lost later_requests morning
      other_keys refl new_key refl

by_name : IsIteration {V = ℕ} (λ m. m)
by_name = record { same = λ q m. refl; once = λ m h. h }

-- two rows of a tenant and then one more
abbrev rows : List (LogEvent Fixed)
rows = logged ∷ logged ∷ []

tenant_stats-counted_example :
    (stats : TenantStats Fixed) × (get_tenant_stats {F = Fixed}
        (λ costs. 0)
        {X = String}
        (λ m. m)
        none
        none
        []
        "acme"
        rows
        (logged ∷ rows)
      ≡ ok stats)
    × (stats.total_requests ≡ 2)
    × ((model : String)
        → lookup model stats.models ≡ counted (uses_of model (rows_of "acme" (logged ∷ rows))))
tenant_stats-counted_example =
    tenant_stats-counted (λ costs. 0) (λ m. m) by_name "acme" rows (logged ∷ rows)

chart-Ascending_example :
    (points : List (ChartPoint Fixed)) × (get_chart_data {F = Fixed}
        (λ costs. 0)
        {X = String}
        none
        []
        5
        rows
      ≡ ok points)
    × Ascending points
    × (requests_of points ≡ 2)
chart-Ascending_example = chart-Ascending (λ costs. 0) 5 rows
