-- ===== src/Server/Keys.antt =====
-- internal/db/db.go, cmd/gateway/main.go: whatever requests come, a hash keeps its tenant in the
-- table.
use kenbun.Prelude.{
  String, false, ◌≡◌, inl, inr, Bool-cases, Option, some, List, [], ◌∷◌, ℤ, ℕ, ◌==◌, eq_iff, arith,
}
use mathlib.Core.Option.{some-ne-none}
use kenbun.Health.{EwmaMonitor}
use kenbun.Float.{Float}
use kenbun.Provider.{Outcome, ok, err}
use kenbun.Exchange.{Tenant, Services, Clock}
use kenbun.Postgres.{SqlErrors, first, has_hash, create_tenant}
use kenbun.Postgres.Rows.{is_taken, Fresh, create_tenant-Made}
use kenbun.Admin.{
  Route, TenantForm, AnalyticsRepository, list_tenants, create_tenant as create, tenant_stats,
  global_stats, charts, stream_logs, fail_provider, is_authorized, admin, handle, new_tenant,
}
use kenbun.Prelude.Map.{Map}
use kenbun.Budget.{message, tick}
use kenbun.Server.Table.{unspent, unspent_rows, consumed-unspent, ticked-unspent}
use kenbun.Server.{
  Happening, request, consumed, ticked, process, Incoming, health, chat_completions, admin_call,
  Engine, Server, admin_repositories, serve, serve_each,
}

-- the table has the tenant under the hash, whatever it has spent
abbrev pub Has : String → Tenant → List Tenant → Type 0
Has hash t rows = first (has_hash hash) (unspent_rows rows) ≡ some (unspent t)

free-unknown :
    (id hash : String) (t : Tenant) (rows : List Tenant) → Fresh id hash rows → ¬ Has hash t rows
free-unknown id hash t [] fresh h = cc
free-unknown id hash t (u ∷ rows) fresh h = elim (Bool-cases (is_taken id hash u)) [
  | inl taken ↦ absurd (some-ne-none u (rw taken at fresh))
  | inr free ↦
      let other : has_hash hash u ≡ false = ground (arith, free) in
      free-unknown id hash t rows (rw free at fresh) (rw other at h)
]

module _ {X : Type 0} (errors : SqlErrors X) where
  create_tenant-Has :
      (fault : Option X) (id name hash : String) (rpm budget : ℤ) (allowlist : List String)
      (rows : List Tenant) (wanted : String) (t : Tenant)
      → Has wanted t rows
      → Has wanted t (create_tenant errors fault id name hash rpm budget allowlist rows).0
  create_tenant-Has fault id name hash rpm budget allowlist rows wanted t h =
      elim (create_tenant-Made errors fault id name hash rpm budget allowlist rows) [
        | inl (made, grown, fresh) ↦ elim (Bool-cases (hash == wanted)) [
          | inl same ↦
              let e = (eq_iff hash wanted).0 same in
              absurd (free-unknown id hash t rows fresh (rw (← e) at h))
          | inr miss ↦ rw (grown, miss) h
        ]
        | inr (x, failed, same) ↦ rw same h
      ]

  module _ {S B P Y J : Type 0} (s : Services S B X P Y)
      (analytics : Option (AnalyticsRepository X J)) (secret : String) where
    new_tenant-Has :
        (e : Engine X) (form : Outcome X TenantForm) (rows : List Tenant) (hash : String)
        (t : Tenant)
        → Has hash t rows
        → Has hash t (new_tenant (admin_repositories errors s analytics secret e) form rows).0
    unfolding new_tenant
    new_tenant-Has e (err x) rows hash t h = h
    new_tenant-Has e (ok form) rows hash t h =
        create_tenant-Has e.fault e.generated form.name (s.key_hash form.api_key)
          form.rate_limit_rpm form.budget_cents form.provider_allowlist rows hash t h

module _ {S B X P Y J : Type 0} (errors : SqlErrors X) (s : Services S B X P Y)
    (analytics : Option (AnalyticsRepository X J)) (secret : String) {F : Type 0}
    ⦃d : Float F⦄ where
  handle-Has :
      (e : Engine X) (now : ℕ) (route : Route X) (rows : List Tenant) (m : EwmaMonitor F)
      (hash : String) (t : Tenant)
      → Has hash t rows
      → Has hash t (handle (admin_repositories errors s analytics secret e) now route rows m).0
  unfolding handle
  handle-Has e now list_tenants rows m hash t h = h
  handle-Has e now (create form) rows m hash t h =
      new_tenant-Has errors s analytics secret e form rows hash t h
  handle-Has e now (tenant_stats id) rows m hash t h = h
  handle-Has e now global_stats rows m hash t h = h
  handle-Has e now charts rows m hash t h = h
  handle-Has e now (stream_logs flusher) rows m hash t h = h
  handle-Has e now (fail_provider name) rows m hash t h = h

  serve-Has :
      (e : Engine X) (now : Clock) (r : Incoming X Y) (v : Server F S) (hash : String) (t : Tenant)
      → Has hash t v.tenants
      → Has hash t (serve errors s analytics secret e now r v).0.tenants
  unfolding serve admin
  serve-Has e now health v hash t h = h
  serve-Has e now (chat_completions r) v hash t h = h
  serve-Has e now (admin_call header query route) v hash t h =
      elim (Bool-cases (is_authorized secret header query)) [
        | inl known ↦ rw known (handle-Has e now.started route v.tenants v.world.monitor hash t h)
        | inr denied ↦ rw denied h
      ]

  pub serve_each-Has :
      (order : Map F → Map F) (rs : List (Happening F X Y)) (v : Server F S) (hash : String)
      (t : Tenant)
      → Has hash t v.tenants
      → Has hash t (serve_each errors s analytics secret order rs v).0.tenants
  unfolding serve_each
  serve_each-Has order [] v hash t h = h
  serve_each-Has order (request e now r ∷ rs) v hash t h =
      serve_each-Has order rs (serve errors s analytics secret e now r v).0 hash t
        (serve-Has e now r v hash t h)
  serve_each-Has order (consumed faults o ∷ rs) v hash t h =
      serve_each-Has order rs (process errors order faults (message o) v) hash t
        (rw (consumed-unspent errors order faults o v) h)
  serve_each-Has order (ticked faults ∷ rs) v hash t h =
      serve_each-Has order rs (process errors order faults tick v) hash t
        (rw (ticked-unspent errors order faults v) h)
