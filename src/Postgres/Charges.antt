-- ===== src/Postgres/Charges.antt =====
-- internal/db/db.go: the statement of UpdateTenantSpend is the ledger that the processor relies on.
use mathlib.Core.Option.{none-ne-some, map-eq-some_iff}
use mathlib.Core.Option
use kenbun.Prelude.{
  String, ◌⊎◌, arith, true, ◌≡◌, refl, sym, ◌∙◌, ap, inl, inr, Bool-cases, Option, none, some, List,
  [], ◌∷◌, ℤ, pos, ◌+ℤ◌, if◌then◌else◌, ◌==◌, eq_iff,
}
use kenbun.Exchange.{Tenant}
use kenbun.Budget.Ledger.{IsLedger}
use kenbun.Postgres.{
  SqlErrors, is_int4, first, has_id, has_hash, charge, charge_rows, settle_rows,
  update_tenant_spend, Database, update_spend,
}

abbrev pub spent_by : Option Tenant → ℤ
spent_by none = pos 0
spent_by (some t) = t.spent_cents

-- what the table says that a tenant has spent, and that it has the tenant
abbrev pub spent_in : {X : Type 0} → String → Database X → ℤ
spent_in id (rows, faults) = spent_by (first (has_id id) rows)

abbrev pub KnownIn : {X : Type 0} → String → Database X → Type 0
KnownIn id (rows, faults) = (t : Tenant) × (first (has_id id) rows ≡ some t)

-- what an update makes of the row that it finds for `q`
abbrev charged_for : String → String → ℤ → Tenant → Tenant
charged_for id q cents t = if id == q then charge cents t else t

first-cons :
    (id q : String) (cents : ℤ) (t new : Tenant) (rows later : List Tenant)
    → new.id ≡ t.id
    → ((t.id == q) ≡ true → new ≡ charged_for id q cents t)
    → first (has_id q) later ≡ Option.map (charged_for id q cents) (first (has_id q) rows)
    → first (has_id q) (new ∷ later)
      ≡ Option.map (charged_for id q cents) (first (has_id q) (t ∷ rows))
first-cons id q cents t new rows later same here rest = elim (Bool-cases (t.id == q)) [
  | inl hit ↦ rw (ap (λ s. s == q) same ∙ hit, hit) (ap some (here hit))
  | inr miss ↦ rw (ap (λ s. s == q) same ∙ miss, miss) rest
]

-- what an update makes of a row
abbrev pub charged_row : String → ℤ → Tenant → Tenant
charged_row id cents t = if t.id == id then charge cents t else t

charged_row-same :
    (id q : String) (cents : ℤ) (t : Tenant)
    → (t.id == q) ≡ true
    → charged_row id cents t ≡ charged_for id q cents t
charged_row-same id q cents t e =
    ap (λ b. if b then charge cents t else t)
      (ground (arith, eq_iff t.id id, eq_iff t.id q, eq_iff id q))

pub charged_row-keys :
    (id : String) (cents : ℤ) (t : Tenant)
    → let t' = charged_row id cents t in (t'.id ≡ t.id) × (t'.api_key_hash ≡ t.api_key_hash)
charged_row-keys id cents t = elim (Bool-cases (t.id == id)) [
  | inl hit ↦ rw hit (refl, refl)
  | inr miss ↦ rw miss (refl, refl)
]

pub charge_rows-cons :
    (id : String) (cents : ℤ) (t : Tenant) (rows charged : List Tenant)
    → charge_rows id cents (t ∷ rows) ≡ some charged
    → (later : List Tenant) × (charge_rows id cents rows ≡ some later)
      × (charged_row id cents t ∷ later ≡ charged)
unfolding charge_rows
charge_rows-cons id cents t rows charged e = elim (Bool-cases (t.id == id)) [
  | inl hit ↦ elim (Bool-cases (is_int4 (t.spent_cents +ℤ cents))) [
    | inl fits ↦ rw hit ((map-eq-some_iff (λ l. charge cents t ∷ l) _).0 (rw (hit, fits) at e))
    | inr over ↦ absurd (none-ne-some _ (rw (hit, over) at e))
  ]
  | inr miss ↦ rw miss ((map-eq-some_iff (λ l. t ∷ l) _).0 (rw miss at e))
]

-- A charge that fits is what the first row with an id shows, and no row is lost.
first-charge_rows :
    (id q : String) (cents : ℤ) (rows charged : List Tenant)
    → charge_rows id cents rows ≡ some charged
    → first (has_id q) charged ≡ Option.map (charged_for id q cents) (first (has_id q) rows)
unfolding charge_rows
first-charge_rows id q cents [] charged e =
    ap (first (has_id q)) (sym (Option.some-injective _ _ e))
first-charge_rows id q cents (t ∷ rows) charged e =
    let (later, found, made) = charge_rows-cons id cents t rows charged e in
    rw (← made) (
      first-cons id q cents t (charged_row id cents t) rows later (charged_row-keys id cents t).0
        (charged_row-same id q cents t) (first-charge_rows id q cents rows later found))

module _ {X : Type 0} (errors : SqlErrors X) where
  abbrev pub Updated : String → ℤ → List Tenant → List Tenant × Option X → Type 0
  Updated id cents rows (rows', problem) =
      ((problem ≡ none) × (charge_rows id cents rows ≡ some rows'))
      ⊎ ((x : X) × (problem ≡ some x) × (rows' ≡ rows))

  settle_rows-Updated :
      (id : String) (cents : ℤ) (rows : List Tenant) (o : Option (List Tenant))
      → charge_rows id cents rows ≡ o
      → Updated id cents rows (settle_rows errors rows o)
  settle_rows-Updated id cents rows (some charged) e = inl (refl, e)
  settle_rows-Updated id cents rows none e = inr (errors.out_of_range, refl, refl)

  pub update_tenant_spend-Updated :
      (fault : Option X) (id : String) (cents : ℤ) (rows : List Tenant)
      → Updated id cents rows (update_tenant_spend errors fault id cents rows)
  unfolding update_tenant_spend
  update_tenant_spend-Updated (some x) id cents rows = inr (x, refl, refl)
  update_tenant_spend-Updated none id cents rows = elim (Bool-cases (is_int4 cents)) [
    | inl fits ↦ rw fits (settle_rows-Updated id cents rows (charge_rows id cents rows) refl)
    | inr over ↦ rw over (inr (errors.out_of_range, refl, refl))
  ]

  pub update_spend-Updated :
      (id : String) (cents : ℤ) (db : Database X)
      → let (db', problem) = update_spend errors id cents db in
        Updated id cents db.0 (db'.0, problem)
  unfolding update_spend
  update_spend-Updated id cents (rows, []) = update_tenant_spend-Updated none id cents rows
  update_spend-Updated id cents (rows, fault ∷ faults) =
      update_tenant_spend-Updated fault id cents rows

  spent_by-map :
      (id q : String) (cents : ℤ) (o : Option Tenant) {t : Tenant}
      → o ≡ some t
      → spent_by (Option.map (charged_for id q cents) o)
        ≡ (if id == q then spent_by o +ℤ cents else spent_by o)
  spent_by-map id q cents none e = absurd (none-ne-some _ e)
  spent_by-map id q cents (some t) e = elim (Bool-cases (id == q)) [
    | inl hit ↦ rw hit refl
    | inr miss ↦ rw miss refl
  ]

  -- The statement of `UpdateTenantSpend`, with any faults to come, adds what it is given to what
  -- the tenant has spent, touches no other tenant, loses none, and changes nothing when it fails.
  pub update_spend-IsLedger : IsLedger (update_spend errors) spent_in KnownIn
  update_spend-IsLedger = record {
    adds = λ id q cents db k e. elim (update_spend-Updated id cents db) [
      | inl (fine, charged) ↦
          ap spent_by (first-charge_rows id q cents db.0 _ charged)
          ∙ spent_by-map id q cents (first (has_id q) db.0) k.1
      | inr (x, fails, same) ↦ absurd (none-ne-some x (sym e ∙ fails))
    ];
    stays = λ id q cents db k. elim (update_spend-Updated id cents db) [
      | inl (fine, charged) ↦ (
        charged_for id q cents k.0,
        first-charge_rows id q cents db.0 _ charged ∙ ap (Option.map (charged_for id q cents)) k.1,
      )
      | inr (x, fails, same) ↦ (k.0, ap (first (has_id q)) same ∙ k.1)
    ];
    keeps = λ id q cents db x e. elim (update_spend-Updated id cents db) [
      | inl (fine, charged) ↦ absurd (none-ne-some x (sym fine ∙ e))
      | inr (y, fails, same) ↦ ap (λ rows. spent_by (first (has_id q) rows)) same
    ];
  }

-- The row that a hash finds is charged if it has the id, and stays the one that the hash finds.
pub hash-charge_rows :
    (id hash : String) (cents : ℤ) (rows charged : List Tenant)
    → charge_rows id cents rows ≡ some charged
    → first (has_hash hash) charged ≡ Option.map (charged_row id cents) (first (has_hash hash) rows)
unfolding charge_rows
hash-charge_rows id hash cents [] charged e =
    ap (first (has_hash hash)) (sym (Option.some-injective _ _ e))
hash-charge_rows id hash cents (t ∷ rows) charged e =
    let (later, found, made) = charge_rows-cons id cents t rows charged e in
    let same = ap (λ s. s == hash) (charged_row-keys id cents t).1 in
    elim (Bool-cases (t.api_key_hash == hash)) [
      | inl hit ↦ rw (← made, same ∙ hit, hit) refl
      | inr miss ↦ rw (← made, same ∙ miss, miss) (hash-charge_rows id hash cents rows later found)
    ]
