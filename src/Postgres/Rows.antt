-- ===== src/Postgres/Rows.antt =====
-- internal/db/db.go: what CreateTenant inserts is what GetTenantByAPIKeyHash finds, and what
--  GetAllTenants answers when the rows stop early.
use mathlib.Core.List.{append-nil, append_assoc}
use kenbun.Prelude.{
  String, Bool, true, ◌&&◌, ◌||◌, ◌≡◌, ◌≢◌, refl, sym, ◌∙◌, ap, inl, inr, Bool-cases, Option-cases,
  Option, none, some, List, [], ◌∷◌, ◌++◌, map, ℤ, pos, if◌then◌else◌, ◌==◌, ◌⊎◌,
}
use kenbun.Exchange.{Tenant}
use kenbun.Provider.{Outcome, ok, err}
use kenbun.Postgres.{
  SqlErrors, Fetch, scanned, cut, is_int4, first, has_id, has_hash, one_row,
  get_tenant_by_api_key_hash, fetch_rows, get_all_tenants, create_tenant,
}

-- no row has the id or the hash
abbrev pub is_taken : String → String → Tenant → Bool
is_taken id hash t = has_id id t || has_hash hash t

abbrev pub Fresh : String → String → List Tenant → Type 0
Fresh id hash rows = first (is_taken id hash) rows ≡ none

abbrev pub new_row : String → String → String → ℤ → ℤ → List String → Tenant
new_row id name hash rpm budget allowlist = record {
  id = id;
  name = name;
  api_key_hash = hash;
  rate_limit_rpm = rpm;
  budget_cents = budget;
  spent_cents = pos 0;
  provider_allowlist = allowlist;
  is_active = true;
}

ok-injective : {X A : Type 0} {a b : A} → ◌≡◌ {A = Outcome X A} (ok a) (ok b) → a ≡ b
ok-injective e = cc

ok≢err : {X A : Type 0} {a : A} {x : X} → ◌≢◌ {A = Outcome X A} (ok a) (err x)
ok≢err e = cc

module _ {X : Type 0} (errors : SqlErrors X) where
  -- The table grows by the row that is answered, and then only by a fresh one, or it stays.
  abbrev pub Made : String → String → Tenant → List Tenant → List Tenant × Outcome X Tenant → Type 0
  Made id hash new rows (rows', made) =
      ((made ≡ ok new) × (rows' ≡ new ∷ rows) × Fresh id hash rows)
      ⊎ ((x : X) × (made ≡ err x) × (rows' ≡ rows))

  pub create_tenant-Made :
      (fault : Option X) (id name hash : String) (rpm budget : ℤ) (allowlist : List String)
      (rows : List Tenant)
      → Made id hash
          (new_row id name hash rpm budget allowlist)
          rows
          (create_tenant errors fault id name hash rpm budget allowlist rows)
  unfolding create_tenant
  create_tenant-Made (some x) id name hash rpm budget allowlist rows = inr (x, refl, refl)
  create_tenant-Made none id name hash rpm budget allowlist rows =
      elim (Bool-cases (is_int4 rpm && is_int4 budget)) [
        | inl fits ↦ elim (Option-cases (first (is_taken id hash) rows)) [
          | inl fresh ↦ rw (fits, fresh) (inl (refl, refl, refl))
          | inr (t, taken) ↦ rw (fits, taken) (inr (errors.duplicate, refl, refl))
        ]
        | inr over ↦ rw over (inr (errors.out_of_range, refl, refl))
      ]

  found :
      (wanted : String) (t : Tenant) (rows : List Tenant)
      → one_row errors (first (has_hash wanted) (t ∷ rows))
        ≡ (if t.api_key_hash == wanted then ok t else one_row errors (first (has_hash wanted) rows))
  found wanted t rows = elim (Bool-cases (t.api_key_hash == wanted)) [
    | inl hit ↦ rw hit refl
    | inr miss ↦ rw miss refl
  ]

  -- After a tenant is made, its hash finds it, with the limits that were asked for and nothing
  -- spent, and any other hash finds what it found before.
  pub create_tenant-get :
      (fault : Option X) (id name hash : String) (rpm budget : ℤ) (allowlist : List String)
      (rows : List Tenant) (wanted : String) {t : Tenant}
      → (create_tenant errors fault id name hash rpm budget allowlist rows).1 ≡ ok t
      → let (rows', made) = create_tenant errors fault id name hash rpm budget allowlist rows in
        (get_tenant_by_api_key_hash errors none wanted rows'
          ≡ (if hash == wanted then ok t else get_tenant_by_api_key_hash errors none wanted rows))
        × (t ≡ new_row id name hash rpm budget allowlist)
  unfolding get_tenant_by_api_key_hash
  create_tenant-get fault id name hash rpm budget allowlist rows wanted {t} e =
      elim (create_tenant-Made fault id name hash rpm budget allowlist rows) [
        | inl (made, grown, fresh) ↦
            let same : t ≡ new_row id name hash rpm budget allowlist =
              ok-injective (sym e ∙ made) in
            (
              ap (λ l. one_row errors (first (has_hash wanted) l)) grown
                  ∙ rw same (found wanted (new_row id name hash rpm budget allowlist) rows),
              same,
            )
        | inr (x, failed, same) ↦ absurd (ok≢err (sym e ∙ failed))
      ]

  -- `rows.Next` that reads every row of a list
  abbrev pub scans : List Tenant → List (Fetch X)
  scans rows = map (λ t. scanned) rows

  fetch_rows-cut :
      (before after got : List Tenant) (fetches : List (Fetch X))
      → fetch_rows errors (scans before ++ cut ∷ fetches) (before ++ after) got ≡ ok (got ++ before)
  unfolding fetch_rows
  fetch_rows-cut [] [] got fetches = ap ok (sym (append-nil got))
  fetch_rows-cut [] (t ∷ after) got fetches = ap ok (sym (append-nil got))
  fetch_rows-cut (t ∷ before) after got fetches =
      fetch_rows-cut before after (got ++ t ∷ []) fetches ∙ ap ok (append_assoc got (t ∷ []) before)

  fetch_rows-all : (rows got : List Tenant) → fetch_rows errors [] rows got ≡ ok (got ++ rows)
  unfolding fetch_rows
  fetch_rows-all [] got = ap ok (sym (append-nil got))
  fetch_rows-all (t ∷ rows) got =
      fetch_rows-all rows (got ++ t ∷ []) ∙ ap ok (append_assoc got (t ∷ []) rows)

  -- When the connection is lost after some rows, the answer is the one of a table that has only
  -- these: no error tells them apart.
  pub lost_rows-unreported :
      (before after : List Tenant) (fetches : List (Fetch X))
      → get_all_tenants errors none (scans before ++ cut ∷ fetches) (before ++ after)
        ≡ get_all_tenants errors none [] before
  unfolding get_all_tenants
  lost_rows-unreported before after fetches =
      fetch_rows-cut before after [] fetches ∙ sym (fetch_rows-all before [])
