-- ===== src/Budget/Faults.antt =====
-- internal/db/processor.go: which updates of a run of the processor touch a tenant, and whether
-- they failed in this run.
use kenbun.Prelude.{
  String, Option, none, some, List, [], ◌∷◌, leb, length, ◌≡◌, if◌then◌else◌, ◌==◌,
}
use kenbun.Prelude.Map.{Map}
use kenbun.Float.{Float}
use kenbun.Logging.{LogEvent}
use kenbun.Budget.{UpdateSpend, Event, done, tick, message, batch_size, add_cost, flush, on_message}

module _ {F : Type 0} ⦃d : Float F⦄ {D X : Type 0} (update : UpdateSpend D X)
    (order : Map F → Map F) (q : String) where
  -- the updates of the tenant among these writes, each on the database that it meets, report no
  -- error
  abbrev pub Written : Map F → D → Type 0
  Written [] db = Unit
  Written ((id, cost) ∷ m) db =
      ((if id == q then (update id (d.trunc cost) db).1 else none) ≡ none)
      × Written m (update id (d.trunc cost) db).0

  -- the tenant's update in a flush reports no error
  abbrev pub Flushed : Map F → D → Type 0
  Flushed [] db = Unit
  Flushed (e ∷ m) db = Written (order (e ∷ m)) db

  -- the same of the flush that a message may cause
  abbrev pub Received : Option (LogEvent F) → Map F → D → Type 0
  Received none m db = Unit
  Received (some e) m db =
      let m' = add_cost e.tenant_id e.cost_cents m in
      if leb batch_size (length m') then Flushed m' db else Unit

  -- the same of every flush in a run of the loop
  abbrev pub Unfailing : List (Event F) → Map F → D → Type 0
  Unfailing [] m db = Unit
  Unfailing (done ∷ events) m db = Flushed m db
  Unfailing (tick ∷ events) m db =
      let (m', db') = flush update order m db in Flushed m db × Unfailing events m' db'
  Unfailing (message o ∷ events) m db =
      let (m', db') = on_message update order o m db in Received o m db × Unfailing events m' db'
