-- ===== src/Server/Table.antt =====
-- internal/db/processor.go, internal/db/db.go: the processor changes nothing of the table of
-- tenants but what they have spent.
use mathlib.Core.Option
use kenbun.Prelude.{
  String, ◌≡◌, refl, sym, ap, ◌∙◌, inl, inr, Bool-cases, Option, none, some, List, [], ◌∷◌, map, ℤ,
  pos, leb, length, ◌==◌,
}
use kenbun.Prelude.Map.{Map}
use kenbun.Float.{Float}
use kenbun.Logging.{LogEvent}
use kenbun.Exchange.{Tenant}
use kenbun.Budget.{message, tick, batch_size, add_cost, write_all, flush, on_message, start}
use kenbun.Postgres.{SqlErrors, Database, first, has_hash, charge_rows, update_spend}
use kenbun.Postgres.Charges.{charged_row, charge_rows-cons, update_spend-Updated}
use kenbun.Server.{Server, process}

-- a row without what was spent
abbrev pub unspent : Tenant → Tenant
unspent t = record t { spent_cents = pos 0 }

-- the table without what was spent
abbrev pub unspent_rows : List Tenant → List Tenant
unspent_rows rows = map unspent rows

charged_row-unspent :
    (id : String) (cents : ℤ) (t : Tenant) → unspent (charged_row id cents t) ≡ unspent t
charged_row-unspent id cents t = elim (Bool-cases (t.id == id)) [
  | inl hit ↦ rw hit refl
  | inr miss ↦ rw miss refl
]

charge_rows-unspent :
    (id : String) (cents : ℤ) (rows charged : List Tenant)
    → charge_rows id cents rows ≡ some charged
    → unspent_rows charged ≡ unspent_rows rows
unfolding charge_rows
charge_rows-unspent id cents [] charged e = ap unspent_rows (sym (Option.some-injective _ _ e))
charge_rows-unspent id cents (t ∷ rows) charged e =
    let (later, found, made) = charge_rows-cons id cents t rows charged e in
    ap unspent_rows (sym made)
    ∙ ap (λ u. u ∷ unspent_rows later) (charged_row-unspent id cents t)
    ∙ ap (λ l. unspent t ∷ l) (charge_rows-unspent id cents rows later found)

-- a hash finds the same row, but for what was spent
pub first-unspent :
    (hash : String) (rows : List Tenant)
    → first (has_hash hash) (unspent_rows rows) ≡ Option.map unspent (first (has_hash hash) rows)
first-unspent hash [] = refl
first-unspent hash (t ∷ rows) = elim (Bool-cases (t.api_key_hash == hash)) [
  | inl hit ↦ rw hit refl
  | inr miss ↦ rw miss (first-unspent hash rows)
]

module _ {F : Type 0} ⦃d : Float F⦄ {X : Type 0} (errors : SqlErrors X)
    (order : Map F → Map F) where
  -- the table of a database, without what was spent
  abbrev left_of : Database X → List Tenant
  left_of db = unspent_rows db.0

  update_spend-unspent :
      (id : String) (cents : ℤ) (db : Database X)
      → left_of (update_spend errors id cents db).0 ≡ left_of db
  update_spend-unspent id cents db = elim (update_spend-Updated errors id cents db) [
    | inl (fine, charged) ↦ charge_rows-unspent id cents db.0 _ charged
    | inr (x, fails, same) ↦ ap unspent_rows same
  ]

  write_all-unspent :
      (m : Map F) (db : Database X)
      → left_of (write_all (update_spend errors) order m db) ≡ left_of db
  unfolding write_all
  write_all-unspent [] db = refl
  write_all-unspent ((id, cost) ∷ m) db =
      write_all-unspent m (update_spend errors id (d.trunc cost) db).0
      ∙ update_spend-unspent id (d.trunc cost) db

  flush-unspent :
      (m : Map F) (db : Database X)
      → left_of (flush (update_spend errors) order m db).1 ≡ left_of db
  unfolding flush
  flush-unspent [] db = refl
  flush-unspent (e ∷ m) db = write_all-unspent (order (e ∷ m)) db

  on_message-unspent :
      (o : Option (LogEvent F)) (m : Map F) (db : Database X)
      → left_of (on_message (update_spend errors) order o m db).1 ≡ left_of db
  unfolding on_message
  on_message-unspent none m db = refl
  on_message-unspent (some e) m db =
      let m' = add_cost e.tenant_id e.cost_cents m in
      elim (Bool-cases (leb batch_size (length m'))) [
        | inl full ↦ rw full (flush-unspent m' db)
        | inr room ↦ rw room refl
      ]

  module _ {S : Type 0} where
    pub consumed-unspent :
        (faults : List (Option X)) (o : Option (LogEvent F)) (v : Server F S)
        → unspent_rows (process errors order faults (message o) v).tenants ≡ unspent_rows v.tenants
    unfolding process start
    consumed-unspent faults o v = on_message-unspent o v.pending (v.tenants, faults)

    pub ticked-unspent :
        (faults : List (Option X)) (v : Server F S)
        → unspent_rows (process errors order faults tick v).tenants ≡ unspent_rows v.tenants
    unfolding process start
    ticked-unspent faults v = flush-unspent v.pending (v.tenants, faults)
