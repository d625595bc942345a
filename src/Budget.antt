-- ===== src/Budget.antt =====
-- internal/db/processor.go: the budget processor, which sums up the costs of log events for each
-- tenant and charges them to the database in whole cents. The database is a parameter; so is the
-- order in which Go ranges over a map. What the `select` of `Start` picks is a list of events.
pub mod Pending
pub mod Faults
pub mod Ledger
pub mod Account
pub mod Refines
pub mod Orders
use kenbun.Prelude.{
  ℕ, zero, suc, ◌^◌, String, Bool, true, false, Option, none, some, List, [], ◌∷◌, ℤ, leb, length,
  if◌then◌else◌,
}
use kenbun.Prelude.Map.{Map, lookup, insert}
use kenbun.Float.{Float, zero_float}
use kenbun.Logging.{LogEvent}

abbrev pub batch_size : ℕ
batch_size = 1000

-- `UpdateTenantSpend`: the new database, and the error if there is one.
abbrev pub UpdateSpend : Type 0 → Type 0 → Type 0
UpdateSpend D X = String → ℤ → D → D × Option X

pub data Event (F : Type 0) : Type 0 where
  done : Event F
  tick : Event F
  -- a message, or `none` for one that cannot be read or decoded
  message : Option (LogEvent F) → Event F

-- `kafka.Reader`
pub record KafkaReader : Type 0 where
  pub brokers : List String
  pub topic : String
  pub group_id : String
  pub min_bytes : ℕ
  pub max_bytes : ℕ

-- the processor as it starts; nothing reads the time of the last flush
pub record BudgetProcessor (F : Type 0) : Type 0 where
  pub reader : KafkaReader
  pub flush_interval : ℕ
  pub pending : Map F
  pub last_flush : ℕ

unfoldable pub new_budget_processor : {F : Type 0} → ℕ → List String → String → BudgetProcessor F
new_budget_processor now brokers topic = record {
  reader = record {
    brokers = brokers;
    topic = topic;
    group_id = "budget-processor";
    min_bytes = 10 ^ 4;
    max_bytes = 10 ^ 7;
  };
  flush_interval = 10 ^ 9;
  pending = [];
  last_flush = now;
}

module _ {F : Type 0} ⦃d : Float F⦄ where
  unfoldable pub pending_of : String → Map F → F
  pending_of id pending = elim (lookup id pending) [ none ↦ zero_float | some cost ↦ cost ]

  -- `p.pending[event.TenantID] += event.CostCents`
  unfoldable pub add_cost : String → F → Map F → Map F
  unfolding pending_of
  add_cost id cost pending = insert id (d.add (pending_of id pending) cost) pending

  module _ {D X : Type 0} (update : UpdateSpend D X) (order : Map F → Map F) where
    -- the loop of `flush`; an error is printed and the loop goes on
    unfoldable pub write_all : Map F → D → D
    write_all [] db = db
    write_all ((id, cost) ∷ updates) db = write_all updates (update id (d.trunc cost) db).0

    unfoldable pub flush : Map F → D → Map F × D
    unfolding write_all
    flush [] db = ([], db)
    flush (e ∷ pending) db = ([], write_all (order (e ∷ pending)) db)

    unfoldable pub on_message : Option (LogEvent F) → Map F → D → Map F × D
    unfolding flush add_cost
    on_message none pending db = (pending, db)
    on_message (some event) pending db =
        let pending' = add_cost event.tenant_id event.cost_cents pending in
        let flushed = flush pending' db in
        if leb batch_size (length pending') then flushed else (pending', db)

    -- The loop of `Start`: what is pending, the database, and whether the loop has returned.
    unfoldable pub start : List (Event F) → Map F → D → Map F × D × Bool
    unfolding on_message
    start [] pending db = (pending, db, false)
    start (done ∷ events) pending db = let (p, db') = flush pending db in (p, db', true)
    start (tick ∷ events) pending db = let (p, db') = flush pending db in start events p db'
    start (message m ∷ events) pending db =
        let (p, db') = on_message m pending db in start events p db'
