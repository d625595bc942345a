-- ===== src/Postgres.antt =====
-- internal/db/db.go: what its four SQL statements do to the table `tenants` of
-- scripts/postgres-init.sql, of which the rows are kept newest first. The engine is a parameter:
-- the id that it generates, the errors that it answers, a fault that keeps a statement from being
-- run, and where the rows of a query stop. Ids are compared as the texts that the database prints.
pub mod Charges
pub mod Rows
use kenbun.Prelude.{
  ℕ, ◌-◌, ◌^◌, String, Bool, true, false, ◌&&◌, ◌||◌, Option, none, some, List, [], ◌∷◌, ◌++◌, ℤ,
  pos, negsuc, ◌+ℤ◌, leb_ℤ, if◌then◌else◌, ◌==◌,
}
use mathlib.Core.Option
use kenbun.Provider.{Outcome, ok, err}
use kenbun.Exchange.{Tenant}
use kenbun.Budget.{UpdateSpend}

-- the errors of a statement that is run
pub record SqlErrors (X : Type 0) : Type 0 where
  pub no_rows : X
  pub duplicate : X
  pub out_of_range : X

-- What the next call of `rows.Next` and `rows.Scan` does: it reads a row, it fails to scan one, or
-- there is no next row, because the connection is lost.
pub data Fetch (X : Type 0) : Type 0 where
  scanned : Fetch X
  unscanned : X → Fetch X
  cut : Fetch X

-- the error that `New` wraps
pub data ConnectError (X : Type 0) : Type 0 where
  unparsed_url : X → ConnectError X
  no_pool : X → ConnectError X

-- `New`: the pool of at most 50 and at least 10 connections. Parsing the URL and making the pool
-- are the driver's.
unfoldable pub new_pool :
    {C P X : Type 0}
    → (String → Outcome X C)
    → (ℕ → ℕ → C → Outcome X P)
    → String
    → Outcome (ConnectError X) P
new_pool parse_config make_pool url = elim (parse_config url) [
  | err x ↦ err (unparsed_url x)
  | ok config ↦ elim (make_pool 50 10 config) [ err x ↦ err (no_pool x) | ok pool ↦ ok pool ]
]

-- a value that fits a column of type INTEGER
abbrev pub is_int4 : ℤ → Bool
is_int4 n = leb_ℤ (negsuc (2 ^ 31 - 1)) n && leb_ℤ n (pos (2 ^ 31 - 1))

-- the first row that passes a test
abbrev pub first : (Tenant → Bool) → List Tenant → Option Tenant
first test [] = none
first test (t ∷ rows) = if test t then some t else first test rows

abbrev pub has_hash : String → Tenant → Bool
has_hash hash t = t.api_key_hash == hash

abbrev pub has_id : String → Tenant → Bool
has_id id t = t.id == id

-- `spent_cents = spent_cents + $1`
abbrev pub charge : ℤ → Tenant → Tenant
charge cents t = record {
  id = t.id;
  name = t.name;
  api_key_hash = t.api_key_hash;
  rate_limit_rpm = t.rate_limit_rpm;
  budget_cents = t.budget_cents;
  spent_cents = t.spent_cents +ℤ cents;
  provider_allowlist = t.provider_allowlist;
  is_active = t.is_active;
}

-- `UPDATE ... WHERE id = $2`: every row or, when a sum does not fit its column, none.
unfoldable pub charge_rows : String → ℤ → List Tenant → Option (List Tenant)
charge_rows id cents [] = some []
charge_rows id cents (t ∷ rows) =
    let later = charge_rows id cents rows in
    if t.id == id
    then (if is_int4 (t.spent_cents +ℤ cents)
        then Option.map (λ l. charge cents t ∷ l) later
        else none)
    else Option.map (λ l. t ∷ l) later

-- The table with the faults that the coming updates meet; without more of them, there are none.
abbrev pub Database : Type 0 → Type 0
Database X = List Tenant × List (Option X)

module _ {X : Type 0} (errors : SqlErrors X) where
  abbrev pub settle_rows : List Tenant → Option (List Tenant) → List Tenant × Option X
  settle_rows rows (some charged) = (charged, none)
  settle_rows rows none = (rows, some errors.out_of_range)

  unfoldable pub update_tenant_spend : Option X → String → ℤ → List Tenant → List Tenant × Option X
  unfolding charge_rows
  update_tenant_spend (some fault) id cents rows = (rows, some fault)
  update_tenant_spend none id cents rows =
      if is_int4 cents
      then settle_rows rows (charge_rows id cents rows)
      else (rows, some errors.out_of_range)

  abbrev pub one_row : Option Tenant → Outcome X Tenant
  one_row (some t) = ok t
  one_row none = err errors.no_rows

  unfoldable pub get_tenant_by_api_key_hash : Option X → String → List Tenant → Outcome X Tenant
  get_tenant_by_api_key_hash (some fault) hash rows = err fault
  get_tenant_by_api_key_hash none hash rows = one_row (first (has_hash hash) rows)

  -- the loop over `rows.Next`, with the tenants read so far
  unfoldable pub fetch_rows : List (Fetch X) → List Tenant → List Tenant → Outcome X (List Tenant)
  fetch_rows fetches [] tenants = ok tenants
  fetch_rows [] (t ∷ rows) tenants = fetch_rows [] rows (tenants ++ t ∷ [])
  fetch_rows (scanned ∷ fetches) (t ∷ rows) tenants = fetch_rows fetches rows (tenants ++ t ∷ [])
  fetch_rows (unscanned x ∷ fetches) (t ∷ rows) tenants = err x
  fetch_rows (cut ∷ fetches) (t ∷ rows) tenants = ok tenants

  unfoldable pub get_all_tenants : Option X → List (Fetch X) → List Tenant → Outcome X (List Tenant)
  unfolding fetch_rows
  get_all_tenants (some fault) fetches rows = err fault
  get_all_tenants none fetches rows = fetch_rows fetches rows []

  -- What the table's columns and constraints make of a row to insert: numbers that do not fit, an
  -- id or a hash that is taken are refused.
  unfoldable pub insert_row : Tenant → List Tenant → List Tenant × Outcome X Tenant
  insert_row made rows =
      if is_int4 made.rate_limit_rpm && is_int4 made.budget_cents
      then elim (first (λ t. has_id made.id t || has_hash made.api_key_hash t) rows) [
        | none ↦ (made ∷ rows, ok made)
        | some other ↦ (rows, err errors.duplicate)
      ]
      else (rows, err errors.out_of_range)

  -- `id` is the one that the database generates. Nothing is checked before the statement is run.
  unfoldable pub create_tenant :
      Option X
      → String
      → String
      → String
      → ℤ
      → ℤ
      → List String
      → List Tenant
      → List Tenant × Outcome X Tenant
  unfolding insert_row
  create_tenant (some fault) id name hash rpm budget allowlist rows = (rows, err fault)
  create_tenant none id name hash rpm budget allowlist rows =
      insert_row
        (record {
          id = id;
          name = name;
          api_key_hash = hash;
          rate_limit_rpm = rpm;
          budget_cents = budget;
          spent_cents = pos 0;
          provider_allowlist = allowlist;
          is_active = true;
        })
        rows

  unfoldable pub update_spend : UpdateSpend (Database X) X
  unfolding update_tenant_spend
  update_spend id cents (rows, []) =
      let (rows', problem) = update_tenant_spend none id cents rows in ((rows', []), problem)
  update_spend id cents (rows, fault ∷ faults) =
      let (rows', problem) = update_tenant_spend fault id cents rows in ((rows', faults), problem)
