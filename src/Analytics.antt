-- ===== src/Analytics.antt =====
-- internal/logging/clickhouse.go: GetGlobalStats, GetChartData and GetTenantStats as queries on the
-- rows of `gateway_logs` (scripts/clickhouse-init.sql). The engine is a parameter: its sum of
-- doubles, the order of a group's rows, a fault of a query, and where the rows of a query stop.
pub mod Models
pub mod Charts
use kenbun.Prelude.{
  ℕ, suc, ◌+◌, ◌%◌, ◌^◌, ◌-◌, String, Bool, Option, none, some, List, [], ◌∷◌, ◌==◌, ℤ, pos, negsuc,
  ◌+ℤ◌, sub_ℕ, pos_part, ltb, ltb_ℤ, ◌*◌, ◌/◌, ◌++◌, length, keep, map, if◌then◌else◌,
}
use kenbun.Prelude.Map.{Map, lookup, insert}
use kenbun.Float.{Float, zero_float}
use kenbun.Provider.{Outcome, ok, err}
use kenbun.Logging.{LogEvent}
use kenbun.Postgres.{Fetch, scanned, unscanned, cut}

-- `clickhouse.Options`, with the dial timeout in nanoseconds
pub record ClickHouseOptions : Type 0 where
  pub addr : String
  pub database : String
  pub username : String
  pub password : String
  pub max_execution_time : ℕ
  pub dial_timeout : ℕ

-- `NewClickHouseClient`: the connection, or the error with a nil repository.
unfoldable pub new_click_house_client :
    {C X : Type 0} → (ClickHouseOptions → Outcome X C) → String → Outcome X C
new_click_house_client open_connection addr = open_connection (record {
  addr = addr;
  database = "default";
  username = "gateway";
  password = "gateway";
  max_execution_time = 60;
  dial_timeout = 5 * 10 ^ 9;
})

pub record GlobalStats (F : Type 0) : Type 0 where
  pub total_requests : ℕ
  pub total_tokens : ℕ
  pub total_cost : F
  pub avg_latency : F

pub record TenantStats (F : Type 0) : Type 0 where
  pub total_requests : ℕ
  pub total_cost : F
  pub models : Map ℕ

-- `toUInt64` of a sum, which wraps
unfoldable pub to_uint64 : ℤ → ℕ
to_uint64 (pos n) = n % 2 ^ 64
to_uint64 (negsuc n) = 2 ^ 64 - 1 - n % 2 ^ 64

unfoldable pub sum_ints : List ℤ → ℤ
sum_ints [] = pos 0
sum_ints (n ∷ ns) = n +ℤ sum_ints ns

-- one more row of a model
abbrev pub one_more : Option ℕ → ℕ
one_more none = 1
one_more (some n) = suc n

-- `GROUP BY model` with `count()`
unfoldable pub count_models : {F : Type 0} → List (LogEvent F) → Map ℕ
count_models [] = []
count_models (e ∷ rows) =
    let later = count_models rows in insert e.model (one_more (lookup e.model later)) later

-- `WHERE tenant_id = $1`
abbrev pub rows_of : {F : Type 0} → String → List (LogEvent F) → List (LogEvent F)
rows_of id rows = keep (λ e. e.tenant_id == id) rows

module _ {F : Type 0} ⦃d : Float F⦄ (sum_floats : List F → F) where
  abbrev pub hundredth : F → F
  hundredth x = d.div x (d.ratio 100 1)

  -- `avg`, which is NaN for no rows, behind its `isFinite`
  unfoldable pub average : List ℤ → F
  unfolding sum_ints
  average [] = zero_float
  average (n ∷ ns) = d.div (d.of_int (sum_ints (n ∷ ns))) (d.of_int (pos (length (n ∷ ns))))

  module _ {X : Type 0} where
    unfoldable pub get_global_stats : Option X → List (LogEvent F) → Outcome X (GlobalStats F)
    unfolding to_uint64 average
    get_global_stats (some fault) rows = err fault
    get_global_stats none rows = ok (record {
      total_requests = length rows;
      total_tokens = to_uint64 (sum_ints (map (λ e. e.prompt_tokens +ℤ e.completion_tokens) rows));
      total_cost = hundredth (sum_floats (map (λ e. e.cost_cents) rows));
      avg_latency = average (map (λ e. e.latency_ms) rows);
    })

    -- the loop over the groups, with the map so far
    unfoldable pub fetch_models : List (Fetch X) → Map ℕ → Map ℕ → Outcome X (Map ℕ)
    fetch_models fetches [] models = ok models
    fetch_models [] ((model, n) ∷ groups) models = fetch_models [] groups (insert model n models)
    fetch_models (scanned ∷ fetches) ((model, n) ∷ groups) models =
        fetch_models fetches groups (insert model n models)
    fetch_models (unscanned x ∷ fetches) (e ∷ groups) models = err x
    fetch_models (cut ∷ fetches) (e ∷ groups) models = ok models

    abbrev pub with_models : ℕ → F → Outcome X (Map ℕ) → Outcome X (TenantStats F)
    with_models n cost (err x) = err x
    with_models n cost (ok models) =
        ok (record { total_requests = n; total_cost = cost; models = models })

    -- The two queries, each with its fault and the rows that it sees: between them, rows may be
    -- added.
    unfoldable pub get_tenant_stats :
        (Map ℕ → Map ℕ)
        → Option X
        → Option X
        → List (Fetch X)
        → String
        → List (LogEvent F)
        → List (LogEvent F)
        → Outcome X (TenantStats F)
    unfolding fetch_models count_models
    get_tenant_stats order (some fault) second fetches id rows rows' = err fault
    get_tenant_stats order none (some fault) fetches id rows rows' = err fault
    get_tenant_stats order none none fetches id rows rows' =
        with_models (length (rows_of id rows))
          (hundredth (sum_floats (map (λ e. e.cost_cents) (rows_of id rows))))
          (fetch_models fetches (order (count_models (rows_of id rows'))) [])

-- a row of GetChartData: the start of an hour in nanoseconds
pub record ChartPoint (F : Type 0) : Type 0 where
  pub timestamp : ℕ
  pub requests : ℕ
  pub cost : F

abbrev pub hour : ℕ
hour = 3600 * 10 ^ 9

-- the costs of the rows of each hour, by the number of the hour, in order
abbrev pub Hours : Type 0 → Type 0
Hours F = List (ℕ × List F)

-- one more row of an hour
unfoldable pub add_row : {F : Type 0} → ℕ → F → Hours F → Hours F
add_row h cost [] = (h, cost ∷ []) ∷ []
add_row h cost ((k, costs) ∷ hours) =
    let later = add_row h cost hours in
    if ltb h k
    then (h, cost ∷ []) ∷ (k, costs) ∷ hours
    else if ltb k h
    then (k, costs) ∷ later
    else (k, cost ∷ costs) ∷ hours

-- `WHERE timestamp > now() - INTERVAL 24 HOUR`
abbrev pub is_recent : {F : Type 0} → ℕ → LogEvent F → Bool
is_recent now e = ltb_ℤ (sub_ℕ now (24 * hour)) e.timestamp

-- `GROUP BY ts ORDER BY ts`, of rows that are not from before 1970
unfoldable pub group_hours : {F : Type 0} → List (LogEvent F) → Hours F
unfolding add_row
group_hours [] = []
group_hours (e ∷ rows) = add_row (pos_part e.timestamp / hour) e.cost_cents (group_hours rows)

module _ {F : Type 0} ⦃d : Float F⦄ (sum_floats : List F → F) where
  abbrev pub chart_point : ℕ × List F → ChartPoint F
  chart_point (h, costs) = record {
    timestamp = h * hour;
    requests = length costs;
    cost = hundredth sum_floats (sum_floats costs);
  }

  module _ {X : Type 0} where
    -- the loop over the rows, with the points so far
    unfoldable pub fetch_points :
        List (Fetch X) → List (ChartPoint F) → List (ChartPoint F) → Outcome X (List (ChartPoint F))
    fetch_points fetches [] points = ok points
    fetch_points [] (p ∷ rows) points = fetch_points [] rows (points ++ (p ∷ []))
    fetch_points (scanned ∷ fetches) (p ∷ rows) points =
        fetch_points fetches rows (points ++ (p ∷ []))
    fetch_points (unscanned x ∷ fetches) (p ∷ rows) points = err x
    fetch_points (cut ∷ fetches) (p ∷ rows) points = ok points

    unfoldable pub get_chart_data :
        Option X → List (Fetch X) → ℕ → List (LogEvent F) → Outcome X (List (ChartPoint F))
    unfolding fetch_points group_hours
    get_chart_data (some fault) fetches now rows = err fault
    get_chart_data none fetches now rows =
        fetch_points fetches (map chart_point (group_hours (keep (is_recent now) rows))) []
