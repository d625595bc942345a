-- ===== src/Budget/Orders.antt =====
-- internal/db/processor.go: the loop of the processor does not depend on the order in which Go
-- ranges over a map.
use mathlib.Core.Path.{subst}
use kenbun.Prelude.{
  String, ◌≡◌, refl, sym, ap, ◌∙◌, Bool-cases, inl, inr, Option, none, some, List, [], ◌∷◌, ℤ, leb,
  length, ◌+ℤ◌,
}
use kenbun.Prelude.Map.{Map, lookup}
use kenbun.Float.{Float}
use kenbun.Logging.{LogEvent}
use kenbun.Budget.{
  Event, done, tick, message, UpdateSpend, batch_size, add_cost, write_all, flush, on_message,
  start,
}
use kenbun.Budget.Pending.{Distinct, add_cost-Distinct}
use kenbun.Budget.Faults.{Flushed, Received, Unfailing}
use kenbun.Budget.Ledger.{IsLedger, IsIteration, cents_of, flush-spent}

module _ {F : Type 0} ⦃d : Float F⦄ {D X : Type 0} (update : UpdateSpend D X)
    (spent : String → D → ℤ) (known : String → D → Type 0)
    (ledger : IsLedger update spent known) where
  write_all-known :
      (order : Map F → Map F) (q : String) (m : Map F) (db : D)
      → known q db
      → known q (write_all update order m db)
  unfolding write_all
  write_all-known order q [] db k = k
  write_all-known order q ((id, cost) ∷ m) db k =
      write_all-known order q m (update id (d.trunc cost) db).0
        (ledger.stays id q (d.trunc cost) db k)

  flush-known :
      (order : Map F → Map F) (q : String) (m : Map F) (db : D)
      → known q db
      → known q (flush update order m db).1
  unfolding flush
  flush-known order q [] db k = k
  flush-known order q (e ∷ m) db k = write_all-known order q (order (e ∷ m)) db k

  flush-empty : (order : Map F → Map F) (m : Map F) (db : D) → (flush update order m db).0 ≡ []
  unfolding flush
  flush-empty order [] db = refl
  flush-empty order (e ∷ m) db = refl

  module _ (order order' : Map F → Map F) (once : IsIteration order) (once' : IsIteration order')
      (q : String) where
    -- two runs that have the same pending and charged the tenant alike
    record Agree (r r' : Map F × D) : Type 0 where
      pending : r.0 ≡ r'.0
      distinct : Distinct r.0
      here : known q r.1
      there : known q r'.1
      charged : spent q r.1 ≡ spent q r'.1

    flush-Agree :
        (m m' : Map F) (db db' : D)
        → Agree (m, db) (m', db')
        → Flushed update order q m db
        → Flushed update order' q m' db'
        → Agree (flush update order m db) (flush update order' m' db')
    flush-Agree m m' db db' a w w' =
        let empty = flush-empty order m db in
        record {
          pending = empty ∙ sym (flush-empty order' m' db');
          distinct = rw empty tt;
          here = flush-known order q m db a.here;
          there = flush-known order' q m' db' a.there;
          charged =
              let first = flush-spent update order spent known ledger once q m db a.here w in
              let second = flush-spent update order' spent known ledger once' q m' db' a.there w' in
              (first a.distinct).1
              ∙ ap (λ n. n +ℤ cents_of (lookup q m)) a.charged
              ∙ ap (λ n. spent q db' +ℤ cents_of (lookup q n)) a.pending
              ∙ sym (second (subst Distinct a.pending a.distinct)).1;
        }

    add_cost-Agree :
        (id : String) (cost : F) (m m' : Map F) (db db' : D)
        → Agree (m, db) (m', db')
        → Agree (add_cost id cost m, db) (add_cost id cost m', db')
    add_cost-Agree id cost m m' db db' a = record {
      pending = ap (add_cost id cost) a.pending;
      distinct = add_cost-Distinct id cost m a.distinct;
      here = a.here;
      there = a.there;
      charged = a.charged;
    }

    on_message-Agree :
        (o : Option (LogEvent F)) (m m' : Map F) (db db' : D)
        → Agree (m, db) (m', db')
        → Received update order q o m db
        → Received update order' q o m' db'
        → Agree (on_message update order o m db) (on_message update order' o m' db')
    unfolding on_message
    on_message-Agree none m m' db db' a w w' = a
    on_message-Agree (some e) m m' db db' a w w' =
        let n = add_cost e.tenant_id e.cost_cents m in
        let n' = add_cost e.tenant_id e.cost_cents m' in
        let added = add_cost-Agree e.tenant_id e.cost_cents m m' db db' a in
        let size = ap (λ n. leb batch_size (length n)) added.pending in
        elim (Bool-cases (leb batch_size (length n))) [
          | inl full ↦
              rw (full, sym size ∙ full)
                (flush-Agree n n' db db' added (rw full at w) (rw (sym size ∙ full) at w'))
          | inr room ↦ rw (room, sym size ∙ room) added
        ]

    start-Agree :
        (events : List (Event F)) (m m' : Map F) (db db' : D)
        → Agree (m, db) (m', db')
        → Unfailing update order q events m db
        → Unfailing update order' q events m' db'
        → let (n, after, returned) = start update order events m db in
          let (n', after', returned') = start update order' events m' db' in
          Agree (n, after) (n', after') × (returned ≡ returned')
    unfolding start
    start-Agree [] m m' db db' a w w' = (a, refl)
    start-Agree (done ∷ events) m m' db db' a w w' = (flush-Agree m m' db db' a w w', refl)
    start-Agree (tick ∷ events) m m' db db' a (w, later) (w', later') =
        let (n, after) = flush update order m db in
        let (n', after') = flush update order' m' db' in
        start-Agree events n n' after after' (flush-Agree m m' db db' a w w') later later'
    start-Agree (message o ∷ events) m m' db db' a (w, later) (w', later') =
        let (n, after) = on_message update order o m db in
        let (n', after') = on_message update order' o m' db' in
        start-Agree events n n' after after' (on_message-Agree o m m' db db' a w w') later later'

    -- The loop of the processor, over any events, keeps the same pending and charges a tenant that
    -- the database knows the same in whichever of two orders each flush visits its map, if no
    -- update of the tenant reports an error in either run.
    pub start-unordered :
        (events : List (Event F)) (m : Map F) (db : D)
        → Distinct m
        → known q db
        → Unfailing update order q events m db
        → Unfailing update order' q events m db
        → let (n, after, returned) = start update order events m db in
          let (n', after', returned') = start update order' events m db in
          (n ≡ n') × (spent q after ≡ spent q after') × (returned ≡ returned')
    start-unordered events m db h k w w' =
        let same : Agree (m, db) (m, db) = record {
          pending = refl;
          distinct = h;
          here = k;
          there = k;
          charged = refl;
        } in
        let (a, returned) = start-Agree events m m db db same w w' in
        (a.pending, a.charged, returned)
