-- ===== src/Gateway/Budgets.antt =====
-- internal/router/handler.go with internal/db/db.go: the budget that a request is held to, read
-- from the table of tenants.
use text.Mathlib.TextPositions.{eq_refl}
use mathlib.Core.Option
use mathlib.Core.Option.{none-ne-some}
use kenbun.Prelude.{
  String, true, false, ◌≡◌, refl, sym, ap, ◌∙◌, inl, inr, none, some, List, ℤ, ◌==◌,
}
use kenbun.Float.{Float}
use kenbun.Provider.{ok}
use kenbun.Exchange.{Tenant, Services, Clock, World, HttpRequest, refused, present}
use kenbun.Gateway.{budget_exhausted, serve_http}
use kenbun.Gateway.Checks.{SameLogs, SameGuards}
use kenbun.Postgres.{
  SqlErrors, first, has_hash, charge, charge_rows, update_tenant_spend, get_tenant_by_api_key_hash,
  one_row,
}
use kenbun.Postgres.Charges.{charged_row, hash-charge_rows, update_tenant_spend-Updated}

module _ {X : Type 0} (errors : SqlErrors X) where
  -- What the hash of a key finds after its tenant was charged.
  charged_tenant :
      (hash : String) (cents : ℤ) (rows rows' : List Tenant) (tenant : Tenant)
      → first (has_hash hash) rows ≡ some tenant
      → update_tenant_spend errors none tenant.id cents rows ≡ (rows', none)
      → get_tenant_by_api_key_hash errors none hash rows' ≡ ok (charge cents tenant)
  unfolding get_tenant_by_api_key_hash
  charged_tenant hash cents rows rows' tenant found done =
      elim (update_tenant_spend-Updated errors none tenant.id cents rows) [
        | inl (fine, charged) ↦
            let there : charge_rows tenant.id cents rows ≡ some rows' =
              charged ∙ ap (λ r. some r.0) done in
            let self : charged_row tenant.id cents tenant ≡ charge cents tenant =
              rw (eq_refl tenant.id) refl in
            ap (one_row errors) (
              hash-charge_rows tenant.id hash cents rows rows' there
              ∙ ap (Option.map (charged_row tenant.id cents)) found
              ∙ ap some self)
        | inr (x, failed, same) ↦ absurd (none-ne-some x (sym (ap (λ r. r.1) done) ∙ failed))
      ]

module _ {F : Type 0} ⦃d : Float F⦄ {S B X P Y : Type 0} (s : Services S B X P Y) (t : Clock) where
  -- Once the charge of a tenant reaches its budget in the table, a request with its key, which is
  -- not empty, is refused with 402 if the tenant is not cached: nothing is logged, no token is
  -- taken and the monitor stays.
  pub charged_out-refused :
      (errors : SqlErrors X) (r : HttpRequest Y) (cents : ℤ) (rows rows' : List Tenant)
      (tenant : Tenant) (w : World F S)
      → (r.api_key == "") ≡ false
      → first (has_hash (s.key_hash r.api_key)) rows ≡ some tenant
      → update_tenant_spend errors none tenant.id cents rows ≡ (rows', none)
      → budget_exhausted (charge cents tenant) ≡ true
      → s.find_tenant (s.key_hash r.api_key)
        ≡ get_tenant_by_api_key_hash errors none (s.key_hash r.api_key) rows'
      → present (s.cache.get t.started (s.tenant_key (s.key_hash r.api_key)) w.store).1 ≡ none
      → let (w', reply) = serve_http s t r w in
        (reply ≡ refused 402 "budget_exhausted") × SameGuards w w' × SameLogs w w'
  unfolding serve_http
  charged_out-refused errors r cents rows rows' tenant w keyed found done out asked missed =
      let stored =
        asked ∙ charged_tenant errors (s.key_hash r.api_key) cents rows rows' tenant found done in
      rw (keyed, missed, stored, out) (refl, (refl, refl), (refl, refl))
