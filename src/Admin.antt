-- ===== src/Admin.antt =====
-- internal/router/admin.go: the admin handlers behind their token. chi, which picks the route and
-- reads its parameters, the hash and JSON are libraries: a route is a value. The repositories are a
-- parameter, since the handlers see no more of them; `ClickHouseClient` is the one implementation
-- of the analytics that there is.
pub mod Drain
use kenbun.Prelude.{
  ℕ, String, Bool, true, false, not, ◌&&◌, Option, none, some, List, [], ◌∷◌, ◌++◌, ℤ,
  if◌then◌else◌, ◌==◌,
}
use kenbun.Float.{Float}
use kenbun.Health.{EwmaMonitor, force_failure}
use kenbun.Provider.{Outcome, ok, err}
use kenbun.Exchange.{Tenant}

-- the body of `createTenant`
pub record TenantForm : Type 0 where
  pub name : String
  pub rate_limit_rpm : ℤ
  pub budget_cents : ℤ
  pub api_key : String
  pub provider_allowlist : List String

-- The routes. A body that does not decode comes with the decoder's error.
pub data Route (X : Type 0) : Type 0 where
  list_tenants : Route X
  create_tenant : Outcome X TenantForm → Route X
  tenant_stats : String → Route X
  global_stats : Route X
  charts : Route X
  -- whether the writer of the response is a flusher
  stream_logs : Bool → Route X
  fail_provider : String → Route X

-- One turn of the `select` of `streamLogs`: a message of the subscription, or the end of the
-- request.
pub data LiveEvent : Type 0 where
  published : String → LiveEvent
  gone : LiveEvent

pub data AdminReply (X J : Type 0) : Type 0 where
  unauthorized : AdminReply X J
  json_error : X → ℕ → AdminReply X J
  tenants : List Tenant → AdminReply X J
  tenant : Tenant → AdminReply X J
  json : J → AdminReply X J
  no_content : AdminReply X J
  -- the payloads that were written, and what is written where there is nothing to stream
  live : List String → AdminReply X J
  unsupported : AdminReply X J
  -- the abort of a handler that calls a method of a nil repository
  panicked : AdminReply X J

-- `live_logs` is what the subscription of the client's Redis gives.
pub record AnalyticsRepository (X J : Type 0) : Type 0 where
  pub get_tenant_stats : String → Outcome X J
  pub get_global_stats : Outcome X J
  pub get_chart_data : Outcome X J
  pub live_logs : List LiveEvent

-- `TenantRepository` over a database, and the `AnalyticsRepository`, nil if ClickHouse could not be
-- opened at the start
pub record Repositories (D X J : Type 0) : Type 0 where
  pub get_all_tenants : D → Outcome X (List Tenant)
  pub create : String → String → ℤ → ℤ → List String → D → D × Outcome X Tenant
  pub analytics : Option (AnalyticsRepository X J)
  pub key_hash : String → String

-- `AuthMiddleware`: the header's token, or the one of the query.
unfoldable pub is_authorized : String → String → String → Bool
is_authorized secret header query =
    let token = if header == "" then query else header in not (secret == "") && token == secret

module _ {X J : Type 0} where
  unfoldable pub reply_json : Outcome X J → AdminReply X J
  reply_json (ok value) = json value
  reply_json (err x) = json_error x 500

  unfoldable pub reply_tenants : Outcome X (List Tenant) → AdminReply X J
  reply_tenants (ok found) = tenants found
  reply_tenants (err x) = json_error x 500

  unfoldable pub reply_tenant : Outcome X Tenant → AdminReply X J
  reply_tenant (ok made) = tenant made
  reply_tenant (err x) = json_error x 500

  -- a query of the analytics
  unfoldable pub reply_query :
      Option (AnalyticsRepository X J) → (AnalyticsRepository X J → Outcome X J) → AdminReply X J
  unfolding reply_json
  reply_query none query = panicked
  reply_query (some repository) query = reply_json (query repository)

  -- The loop of `streamLogs`, with what was written so far.
  unfoldable pub stream_live : List LiveEvent → List String → AdminReply X J
  stream_live [] sent = live sent
  stream_live (published payload ∷ events) sent = stream_live events (sent ++ (payload ∷ []))
  stream_live (gone ∷ events) sent = live sent

  -- `streamLogs`: the type assertion of a nil repository fails.
  unfoldable pub reply_live : Bool → Option (AnalyticsRepository X J) → AdminReply X J
  unfolding stream_live
  reply_live false repository = unsupported
  reply_live true none = unsupported
  reply_live true (some repository) = stream_live repository.live_logs []

module _ {D X J : Type 0} (r : Repositories D X J) where
  unfoldable pub new_tenant : Outcome X TenantForm → D → D × AdminReply X J
  unfolding reply_tenant
  new_tenant (err x) db = (db, json_error x 400)
  new_tenant (ok form) db =
      let hash = r.key_hash form.api_key in
      let (db', made) =
        r.create form.name hash form.rate_limit_rpm form.budget_cents form.provider_allowlist db in
      (db', reply_tenant made)

module _ {F : Type 0} ⦃d : Float F⦄ {D X J : Type 0} (r : Repositories D X J) where
  unfoldable pub handle : ℕ → Route X → D → EwmaMonitor F → D × EwmaMonitor F × AdminReply X J
  unfolding reply_query reply_live reply_tenants new_tenant force_failure
  handle now list_tenants db m = (db, m, reply_tenants (r.get_all_tenants db))
  handle now (create_tenant form) db m = let (db', reply) = new_tenant r form db in (db', m, reply)
  handle now (tenant_stats id) db m = (db, m, reply_query r.analytics (λ a. a.get_tenant_stats id))
  handle now global_stats db m = (db, m, reply_query r.analytics (λ a. a.get_global_stats))
  handle now charts db m = (db, m, reply_query r.analytics (λ a. a.get_chart_data))
  handle now (stream_logs flusher) db m = (db, m, reply_live flusher r.analytics)
  handle now (fail_provider name) db m = (db, force_failure now name m, no_content)

  -- the middleware before every route
  unfoldable pub admin :
      String
      → String
      → String
      → ℕ
      → Route X
      → D
      → EwmaMonitor F
      → D × EwmaMonitor F × AdminReply X J
  unfolding handle is_authorized
  admin secret header query now route db m =
      if is_authorized secret header query then handle now route db m else (db, m, unauthorized)
