-- ===== src/Pipeline.antt =====
-- The whole path of a cost: internal/router/handler.go writes the log, Kafka carries it,
-- internal/db/processor.go reads it and internal/db/db.go charges it.
pub mod Interleaved
use kenbun.Prelude.{
  none, Option, suc, ◌≤◌, String, ◌≡◌, ap, ◌∙◌, some, List, [], ◌∷◌, ◌++◌, length, Bool-cases, inl,
  inr, ◌==◌, arith,
}
use kenbun.Prelude.Map.{Map}
use kenbun.Float.{Float}
use kenbun.Logging.{LogEvent, LogMessage, log_message}
use kenbun.Provider.{Outcome, ok, err}
use kenbun.Exchange.{Services, Clock, World, HttpRequest}
use kenbun.Gateway.Billing.{billed, serve_all, serve_all-billed}
use kenbun.Budget.{Event, message, done, start}
use kenbun.Budget.Ledger.{IsIteration}
use kenbun.Budget.Faults.{Unfailing}
use kenbun.Budget.Account.{Deal, owe_costs, Lossless, deal_all, account_of, costs_for}
use kenbun.Budget.Refines.{start-refines}
use kenbun.Postgres.{SqlErrors, Database, update_spend}
use kenbun.Postgres.Charges.{spent_in, KnownIn, update_spend-IsLedger}

module _ {V Z : Type 0} where
  abbrev pub with_message : Outcome Z (LogMessage V) → List (LogMessage V) → List (LogMessage V)
  with_message (err x) messages = messages
  with_message (ok m) messages = m ∷ messages

  with_message-few :
      (o : Outcome Z (LogMessage V)) (ms : List (LogMessage V))
      → length (with_message o ms) ≤ suc (length ms)
  with_message-few (err x) ms = omega arith
  with_message-few (ok m) ms = omega arith

module _ {F V Z : Type 0} where
  -- what Kafka is given of the log; the gateway does not look at the error of a `Log`
  abbrev pub written : (LogEvent F → Outcome Z V) → List (LogEvent F) → List (LogMessage V)
  written marshal [] = []
  written marshal (e ∷ es) = with_message (log_message marshal e) (written marshal es)

  written-few :
      (marshal : LogEvent F → Outcome Z V) (es : List (LogEvent F))
      → length (written marshal es) ≤ length es
  written-few marshal [] = omega arith
  written-few marshal (e ∷ es) =
      omega (
        arith,
        with_message-few (log_message marshal e) (written marshal es),
        written-few marshal es,
      )

module _ {F : Type 0} where
  costs_for-message :
      (q : String) (o : Option (LogEvent F)) (events : List (Event F))
      → length (costs_for q (message o ∷ events)) ≤ suc (length (costs_for q events))
  costs_for-message q none events = omega arith
  costs_for-message q (some e) events = elim (Bool-cases (e.tenant_id == q)) [
    | inl hit ↦ rw hit (omega arith)
    | inr miss ↦ rw miss (omega arith)
  ]

module _ {F V : Type 0} where
  -- what the processor receives: every message once, decoded, and then the end
  abbrev pub delivered : (V → Option (LogEvent F)) → List (LogMessage V) → List (Event F)
  delivered decode [] = done ∷ []
  delivered decode (m ∷ ms) = message (decode m.value) ∷ delivered decode ms

  costs_for-delivered :
      (decode : V → Option (LogEvent F)) (q : String) (ms : List (LogMessage V))
      → length (costs_for q (delivered decode ms)) ≤ length ms
  costs_for-delivered decode q [] = omega arith
  costs_for-delivered decode q (m ∷ ms) = omega (
    arith,
    costs_for-message q (decode m.value) (delivered decode ms),
    costs_for-delivered decode q ms,
  )

module _ {F : Type 0} ⦃d : Float F⦄ {S B X P Y V Z : Type 0} (s : Services S B X P Y)
    (marshal : LogEvent F → Outcome Z V) (decode : V → Option (LogEvent F)) (errors : SqlErrors Z)
    (order : Map F → Map F) (iteration : IsIteration order) where
  -- Requests are served from an empty log, and the processor, with nothing pending, receives once
  -- what could be written of the log and stops, in whatever way records are encoded and decoded.
  -- Then a tenant of the table owes costs no more often than requests were answered or streamed,
  -- and its account is what settling them in whole cents makes of it; if no update of the tenant
  -- reports an error in this run, none is forgotten.
  pub charged_once :
      (requests : List (Clock × HttpRequest Y)) (w : World F S) (q : String) (db : Database Z)
      → w.log ≡ []
      → KnownIn q db
      → let (w', replies) = serve_all s requests w in
        let (m', db', returned) =
          start (update_spend errors) order (delivered decode (written marshal w'.log)) [] db in
        let account = account_of {F = F} (update_spend errors) order spent_in KnownIn q in
        (deals : List (Deal F)) × (account (m', db') ≡ deal_all deals (account ([], db)))
        × (length (owe_costs deals) ≤ billed replies)
        × (Unfailing (update_spend errors) order q (delivered decode (written marshal w'.log)) [] db
            → Lossless deals)
  charged_once requests w q db empty k =
      let (w', replies) = serve_all s requests w in
      let (es, log, few) = serve_all-billed s requests w in
      let all = log ∙ ap (λ l. l ++ es) empty in
      let (deals, same, owed, kept) =
        start-refines (update_spend errors) order spent_in KnownIn (update_spend-IsLedger errors)
          iteration q (delivered decode (written marshal w'.log)) [] db k tt in
      let count =
        ap length (owed ∙ ap (λ l. costs_for q (delivered decode (written marshal l))) all) in
      (
        deals,
        same,
        omega (
          arith,
          count,
          costs_for-delivered decode q (written marshal es),
          written-few marshal es,
          few,
        ),
        kept,
      )
