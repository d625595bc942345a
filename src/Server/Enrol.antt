-- ===== src/Server/Enrol.antt =====
-- internal/router/admin.go, internal/db/db.go, internal/router/handler.go: a tenant that an admin
-- made is served with its key.
use kenbun.Prelude.{
  String, false, ◌≡◌, ◌≢◌, refl, sym, ap, ◌∙◌, inl, inr, Bool-cases, Option-cases, Option, none,
  some, if◌then◌else◌, List, ℤ, ◌==◌, eq_iff, arith,
}
use text.Mathlib.TextPositions.{eq_refl}
use kenbun.Float.{Float}
use kenbun.Provider.{Outcome, ok, err}
use kenbun.Exchange.{Tenant, HttpRequest, Services, Clock, present, minutes, refused}
use kenbun.Postgres.{SqlErrors, create_tenant, first, has_hash, one_row, get_tenant_by_api_key_hash}
use mathlib.Core.Option
use mathlib.Core.Option.{map-eq-some_iff}
use kenbun.Postgres.Rows.{new_row, create_tenant-get}
use kenbun.Admin.{
  TenantForm, AnalyticsRepository, create_tenant as create, tenant, is_authorized, admin, handle,
  new_tenant, AdminReply, reply_tenant, unauthorized,
}
use kenbun.RateLimit.{allow}
use kenbun.Gateway.{
  serve_limited, budget_exhausted, serve_budget, serve_tenant, serve_keyed, authenticate,
  read_tenant, load_tenant, serve_http,
}
use kenbun.Prelude.Map.{Map}
use kenbun.Server.Table.{unspent, first-unspent}
use kenbun.Server.{
  Happening, admin_call, Response, admin_reply, Engine, Server, on_tenants, serve, serve_each,
}
use kenbun.Server.Keys.{Has, serve_each-Has}

admin_reply-injective :
    {B X J : Type 0} (a b : AdminReply X J)
    → ◌≡◌ {A = Response B X J} (admin_reply a) (admin_reply b)
    → a ≡ b
admin_reply-injective a b e = cc

module _ {X J : Type 0} where
  reply_tenant-made :
      (o : Outcome X Tenant) (made : Tenant)
      → ◌≡◌ {A = AdminReply X J} (reply_tenant o) (tenant made)
      → o ≡ ok made
  unfolding reply_tenant
  reply_tenant-made (ok t) made e = cc
  reply_tenant-made (err x) made e = cc

  unauthorized-made : (made : Tenant) → ◌≢◌ {A = AdminReply X J} unauthorized (tenant made)
  unauthorized-made made e = cc

-- what a query by the hash finds is in the table
got-Has :
    {X : Type 0} (errors : SqlErrors X) (hash : String) (made : Tenant) (rows : List Tenant)
    → get_tenant_by_api_key_hash errors none hash rows ≡ ok made
    → Has hash made rows
unfolding get_tenant_by_api_key_hash
got-Has errors hash made rows e =
    first-unspent hash rows ∙ elim (Option-cases (first (has_hash hash) rows)) [
      | inl missing ↦
          let bad : ◌≡◌ {A = Outcome _ Tenant} (err errors.no_rows) (ok made) = rw missing at e in
          cc
      | inr (t, found) ↦
          let same : ◌≡◌ {A = Outcome _ Tenant} (ok t) (ok made) = rw found at e in
          let here : t ≡ made = cc in
          ap (Option.map unspent) found ∙ ap (λ r. some (unspent r)) here
    ]

-- the row that a hash finds, if the table has the tenant
record IsRow {X : Type 0} (errors : SqlErrors X) (hash : String) (made u : Tenant)
    (rows : List Tenant) : Type 0 where
  same : unspent u ≡ unspent made
  found : get_tenant_by_api_key_hash errors none hash rows ≡ ok u

Has-IsRow :
    {X : Type 0} (errors : SqlErrors X) (hash : String) (made : Tenant) (rows : List Tenant)
    → Has hash made rows
    → (u : Tenant) × IsRow errors hash made u rows
unfolding get_tenant_by_api_key_hash
Has-IsRow errors hash made rows h =
    let (u, found, same) = (map-eq-some_iff unspent _).0 (sym (first-unspent hash rows) ∙ h) in
    (u, record { same = same; found = ap (one_row errors) found })

module _ {S B X P Y J : Type 0} (errors : SqlErrors X) (s : Services S B X P Y)
    (analytics : Option (AnalyticsRepository X J)) (secret : String) {F : Type 0}
    ⦃d : Float F⦄ where
  -- what the creation of a tenant answers and leaves
  create-Has :
      (e : Engine X) (now : Clock) (header query : String) (form : TenantForm) (v : Server F S)
      (made : Tenant)
      → let (v', reply) =
          serve errors s analytics secret e now (admin_call header query (create (ok form))) v in
        reply ≡ admin_reply (tenant made)
        → Has (s.key_hash form.api_key) made v'.tenants
          × (made
              ≡ new_row e.generated form.name
                  (s.key_hash form.api_key)
                  form.rate_limit_rpm
                  form.budget_cents
                  form.provider_allowlist)
  unfolding serve admin handle new_tenant
  create-Has e now header query form v made told =
      let hash = s.key_hash form.api_key in
      let saved =
        create_tenant errors e.fault e.generated form.name hash form.rate_limit_rpm
          form.budget_cents form.provider_allowlist v.tenants in
      elim (Bool-cases (is_authorized secret header query)) [
        | inl known ↦
            let shown = admin_reply-injective _ _ (rw known at told) in
            let (found, new) =
              create_tenant-get errors e.fault e.generated form.name hash form.rate_limit_rpm
                form.budget_cents form.provider_allowlist v.tenants hash
                (reply_tenant-made saved.1 made shown) in
            rw known (got-Has errors hash made saved.0 (rw (eq_refl hash) at found), new)
        | inr denied ↦
            absurd (unauthorized-made made (admin_reply-injective _ _ (rw denied at told)))
      ]

  -- The request of a tenant that the table has, and nothing in the cache: out of budget, or left to
  -- the limiter.
  serve_http-IsRow :
      (e : Engine X) (t : Clock) (v : Server F S) (made u : Tenant) (rpm : ℤ) (r : HttpRequest Y)
      → made.rate_limit_rpm ≡ rpm
      → let hash = s.key_hash r.api_key in
        let (store, got) = s.cache.get t.started (s.tenant_key hash) v.world.store in
        r.api_key ≢ ""
        → e.fault ≡ none
        → present got ≡ none
        → IsRow errors hash made u v.tenants
        → let s' = on_tenants errors s analytics secret e v.tenants in
          let (limiter, result) = allow t.created t.refilled made.id rpm v.world.limiter in
          let saved =
            (s.cache.set t.started (s.tenant_key hash) (s.encode_tenant u) (minutes 5) store).0 in
          serve_http s' t r v.world ≡ (
            if budget_exhausted u
            then (record v.world { store = saved }, refused 402 "budget_exhausted")
            else serve_limited s' t u r.body
                (record v.world { store = saved; limiter = limiter })
                result.allowed)
  unfolding serve_http serve_keyed authenticate read_tenant load_tenant serve_tenant serve_budget
  serve_http-IsRow e t v made u rpm r asked key works missed row =
      let keyed : (r.api_key == "") ≡ false = ground (arith, eq_iff r.api_key "") in
      let id : made.id ≡ u.id = sym (ap (λ t. t.id) row.same) in
      let limit : rpm ≡ u.rate_limit_rpm = sym asked ∙ sym (ap (λ t. t.rate_limit_rpm) row.same) in
      elim (Bool-cases (budget_exhausted u)) [
        | inl out ↦ rw (keyed, missed, works, row.found, out) refl
        | inr spare ↦ rw (id, limit, keyed, missed, works, row.found, spare) refl
      ]

  -- Once an admin has made a tenant with a key that is not empty, and after whatever other requests
  -- and turns of the processor, a request with that key, if the table can be read and the cache has
  -- nothing under its hash, is not unknown: the row that is found is the one that was made but for
  -- what was spent meanwhile, and the request is refused as out of budget if that row is, and
  -- otherwise left to the limiter with the limit that the admin set, and then the body.
  pub enrolled-served :
      (order : Map F → Map F) (e e' : Engine X) (t t' : Clock) (header query : String)
      (form : TenantForm) (v : Server F S) (made : Tenant) (rs : List (Happening F X Y)) (body : Y)
      → let (v1, reply) =
          serve errors s analytics secret e t (admin_call header query (create (ok form))) v in
        let v2 = (serve_each errors s analytics secret order rs v1).0 in
        let hash = s.key_hash form.api_key in
        let (store, got) = s.cache.get t'.started (s.tenant_key hash) v2.world.store in
        reply ≡ admin_reply (tenant made)
        → form.api_key ≢ ""
        → e'.fault ≡ none
        → present got ≡ none
        → let s' = on_tenants errors s analytics secret e' v2.tenants in
          let (limiter, result) =
            allow t'.created t'.refilled made.id form.rate_limit_rpm v2.world.limiter in
          (u : Tenant) × (unspent u
            ≡ new_row e.generated form.name hash form.rate_limit_rpm form.budget_cents
                form.provider_allowlist)
          × (let saved =
                (s.cache.set t'.started
                  (s.tenant_key hash)
                  (s.encode_tenant u)
                  (minutes 5)
                  store).0 in
              serve_http s' t' (record { api_key = form.api_key; body = body }) v2.world ≡ (
                if budget_exhausted u
                then (record v2.world { store = saved }, refused 402 "budget_exhausted")
                else serve_limited s' t' u body
                    (record v2.world { store = saved; limiter = limiter })
                    result.allowed))
  enrolled-served order e e' t t' header query form v made rs body told key works missed =
      let (v1, reply) =
        serve errors s analytics secret e t (admin_call header query (create (ok form))) v in
      let v2 = (serve_each errors s analytics secret order rs v1).0 in
      let hash = s.key_hash form.api_key in
      let (has, new) = create-Has e t header query form v made told in
      let kept = serve_each-Has errors s analytics secret order rs v1 hash made has in
      let (u, row) = Has-IsRow errors hash made v2.tenants kept in
      (
        u,
        row.same ∙ ap unspent new,
        serve_http-IsRow e' t' v2 made u form.rate_limit_rpm
            (record { api_key = form.api_key; body = body }) (ap (λ t. t.rate_limit_rpm) new) key
            works missed row,
      )
