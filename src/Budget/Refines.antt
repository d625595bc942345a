-- ===== src/Budget/Refines.antt =====
-- internal/db/processor.go: whatever the loop receives, it treats each tenant's account by the
-- contract.
use mathlib.Core.Path.{subst}
use mathlib.Core.List.{append-nil}
use kenbun.Prelude.{
  String, Bool, true, false, ◌≡◌, refl, none, some, List, [], ◌∷◌, ◌++◌, ℤ, leb, length,
  if◌then◌else◌, ◌==◌,
}
use kenbun.Prelude.Map.{Map}
use kenbun.Float.{Float}
use kenbun.Logging.{LogEvent}
use kenbun.Budget.{
  UpdateSpend, Event, done, tick, message, batch_size, add_cost, flush, on_message, start,
}
use kenbun.Budget.Pending.{Distinct, add_cost-Distinct}
use kenbun.Budget.Ledger.{IsLedger, IsIteration}
use kenbun.Budget.Faults.{Flushed, Received, Unfailing}
use kenbun.Budget.Account.{
  Deal, owe_costs, Lossless, deal_all, costs_for, account_of, Deals, nothing, combine, relax,
  flush-Deals, Sound, Sound-flush, add_cost-Deals,
}

chosen :
    {A : Type 0} (P : Type 0 → A → Type 0) (b : Bool) {S T : Type 0} {x y : A}
    → P S x
    → P T y
    → P (if b then S else T) (if b then x else y)
chosen P true p q = p
chosen P false p q = q

ahead :
    {A : Type 0} (b : Bool) (x : A) (xs : List A)
    → (if b then x ∷ [] else []) ++ xs ≡ (if b then x ∷ xs else xs)
ahead true x xs = refl
ahead false x xs = refl

module _ {F D X : Type 0} ⦃d : Float F⦄ (update : UpdateSpend D X) (order : Map F → Map F)
    (spent : String → D → ℤ) (known : String → D → Type 0) (ledger : IsLedger update spent known)
    (iteration : IsIteration order) where
  abbrev DealsOf : Type 0 → String → Map F × D → Map F × D → List F → Type 0
  DealsOf Fine q before after costs =
      Deals update order spent known Fine (account_of update order spent known q before)
        (account_of update order spent known q after) costs

  abbrev SoundFor : String → Map F × D → Type 0
  SoundFor q s = Sound update order spent known ledger iteration q s

  on_message-some :
      (q : String) (e : LogEvent F) (m : Map F) (db : D)
      → SoundFor q (m, db)
      → let s = on_message update order (some e) m db in
        DealsOf
          (Received update order q (some e) m db)
          q
          (m, db)
          s
          (if e.tenant_id == q then e.cost_cents ∷ [] else [])
        × SoundFor q s
  unfolding on_message
  on_message-some q e m db (k, h) =
      let m' = add_cost e.tenant_id e.cost_cents m in
      let h' = add_cost-Distinct e.tenant_id e.cost_cents m h in
      let added = add_cost-Deals update order spent known ledger iteration q e m db in
      let charged = flush-Deals update order spent known ledger iteration q m' db k h' in
      chosen
        (λ Fine s.
          DealsOf Fine q (m, db) s (if e.tenant_id == q then e.cost_cents ∷ [] else [])
          × SoundFor q s)
        (leb batch_size (length m'))
        (
          subst (DealsOf (Flushed update order q m' db) q (m, db) (flush update order m' db))
              (append-nil (if e.tenant_id == q then e.cost_cents ∷ [] else []))
              (relax update order spent known (λ w. (tt, w))
                (combine update order spent known added charged)),
          Sound-flush update order spent known ledger iteration q m' db (k, h'),
        )
        (added, (k, h'))

  -- Whatever the loop receives, what it leaves of the account of a tenant that the database knows
  -- is what some deals make of it: each of the tenant's costs up to the end is owed once, in its
  -- order, and between them what is owed is charged in whole cents or forgotten; if no update of
  -- the tenant reports an error in this run, none is forgotten.
  pub start-refines :
      (q : String) (events : List (Event F)) (m : Map F) (db : D)
      → known q db
      → Distinct m
      → let (m', db', returned) = start update order events m db in
        (deals : List (Deal F)) × (account_of update order spent known q (m', db')
          ≡ deal_all deals (account_of update order spent known q (m, db)))
        × (owe_costs deals ≡ costs_for q events)
        × (Unfailing update order q events m db → Lossless deals)
  unfolding start on_message
  start-refines q [] m db k h = nothing update order spent known Unit _
  start-refines q (done ∷ events) m db k h =
      flush-Deals update order spent known ledger iteration q m db k h
  start-refines q (tick ∷ events) m db k h =
      let (k', h') = Sound-flush update order spent known ledger iteration q m db (k, h) in
      let (m', db') = flush update order m db in
      combine update order spent known
        (flush-Deals update order spent known ledger iteration q m db k h)
        (start-refines q events m' db' k' h')
  start-refines q (message none ∷ events) m db k h =
      relax update order spent known (λ w. w.1) (start-refines q events m db k h)
  start-refines q (message (some e) ∷ events) m db k h =
      let (now, (k', h')) = on_message-some q e m db (k, h) in
      let (m', db') = on_message update order (some e) m db in
      let (m2, db2, returned) = start update order events m' db' in
      subst
        (DealsOf (Unfailing update order q (message (some e) ∷ events) m db) q (m, db) (m2, db2))
        (ahead (e.tenant_id == q) e.cost_cents (costs_for q events))
        (combine update order spent known now (start-refines q events m' db' k' h'))
