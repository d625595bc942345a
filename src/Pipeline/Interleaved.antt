-- ===== src/Pipeline/Interleaved.antt =====
-- The whole path of a cost, for requests that are served at the same time: what the interleaved
-- handlers of internal/router/handler.go log is what internal/db/processor.go charges.
use kenbun.Prelude.{
  ℕ, ◌≤◌, String, ◌≡◌, refl, ap, ◌∙◌, Option, some, List, [], ◌∷◌, ◌++◌, map, length, if◌then◌else◌,
  ◌==◌,
}
use kenbun.Prelude.Map.{Map}
use kenbun.Float.{Float}
use kenbun.Logging.{LogEvent, log_message}
use kenbun.Provider.{Outcome, ok}
use kenbun.Exchange.{Services, Clock, World, HttpRequest}
use kenbun.Budget.{start}
use kenbun.Budget.Ledger.{IsIteration}
use kenbun.Budget.Faults.{Unfailing}
use kenbun.Budget.Account.{Deal, owe_costs, Lossless, deal_all, account_of, costs_for}
use kenbun.Budget.Refines.{start-refines}
use kenbun.Postgres.{SqlErrors, Database, update_spend}
use kenbun.Postgres.Charges.{spent_in, KnownIn, update_spend-IsLedger}
use kenbun.Concurrent.{arrive, interleave}
use kenbun.Concurrent.Counts.{total, recorded, recordable}
use kenbun.Concurrent.Records.{interleave-recorded}
use kenbun.Pipeline.{written, delivered}

module _ {F : Type 0} where
  -- the costs of a tenant in the log, the oldest first
  abbrev pub costs_of : String → List (LogEvent F) → List F
  costs_of q [] = []
  costs_of q (e ∷ es) = if e.tenant_id == q then e.cost_cents ∷ costs_of q es else costs_of q es

-- What is relied on of `json.Marshal` and `json.Unmarshal` of a record: it is read as it was
-- written.
pub record IsRoundTrip {F V Z : Type 0} (marshal : LogEvent F → Outcome Z V)
    (decode : V → Option (LogEvent F)) : Type 0 where
  pub payload : LogEvent F → V
  pub marshals : (e : LogEvent F) → marshal e ≡ ok (payload e)
  pub decodes : (e : LogEvent F) → decode (payload e) ≡ some e

module _ {F V Z : Type 0} (marshal : LogEvent F → Outcome Z V) (decode : V → Option (LogEvent F))
    (json : IsRoundTrip marshal decode) where
  costs_for-written :
      (q : String) (es : List (LogEvent F))
      → costs_for q (delivered decode (written marshal es)) ≡ costs_of q es
  unfolding log_message
  costs_for-written q [] = refl
  costs_for-written q (e ∷ es) = rw (json.marshals e, json.decodes e, costs_for-written q es) refl

module _ {F : Type 0} ⦃d : Float F⦄ {S B X P Y V Z : Type 0} (s : Services S B X P Y)
    (marshal : LogEvent F → Outcome Z V) (decode : V → Option (LogEvent F))
    (json : IsRoundTrip marshal decode) (errors : SqlErrors Z) (order : Map F → Map F)
    (iteration : IsIteration order) where
  -- Requests are interleaved from an empty log, and the processor, with nothing pending, receives
  -- what was logged and stops. If records are read as they were written, then a tenant of the table
  -- owes exactly the costs of its records, in the order of the log, and its account is what
  -- settling them in whole cents makes of it; the log has a record for each answered request and
  -- none but for requests that were answered, were streamed or have their record made; and if
  -- no update of the tenant reports an error in this run, no cost is forgotten.
  pub interleave-charged :
      (schedule : List ℕ) (rs : List (Clock × HttpRequest Y)) (w : World F S) (q : String)
      (db : Database Z)
      → w.log ≡ []
      → KnownIn q db
      → let (w', ks) = interleave s schedule w (map arrive rs) in
        let (m', db', returned) =
          start (update_spend errors) order (delivered decode (written marshal w'.log)) [] db in
        let account = account_of {F = F} (update_spend errors) order spent_in KnownIn q in
        (deals : List (Deal F)) × (account (m', db') ≡ deal_all deals (account ([], db)))
        × (owe_costs deals ≡ costs_of q w'.log)
        × (total recorded ks ≤ length w'.log)
        × (length w'.log ≤ total recordable ks)
        × (Unfailing (update_spend errors) order q (delivered decode (written marshal w'.log)) [] db
            → Lossless deals)
  interleave-charged schedule rs w q db empty k =
      let (w', ks) = interleave s schedule w (map arrive rs) in
      let (es, log, low, high) = interleave-recorded s schedule rs w in
      let all = log ∙ ap (λ l. l ++ es) empty in
      let (deals, same, owed, kept) =
        start-refines (update_spend errors) order spent_in KnownIn (update_spend-IsLedger errors)
          iteration q (delivered decode (written marshal w'.log)) [] db k tt in
      (
        deals,
        same,
        owed ∙ costs_for-written marshal decode json q w'.log,
        rw all low,
        rw all high,
        kept,
      )
