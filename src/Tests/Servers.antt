-- ===== src/Tests/Servers.antt =====
-- The server with its two interfaces and its start, and the simulator, at concrete inputs.
use kenbun.Prelude.{
  ◌+ℤ◌, some, if◌then◌else◌, ◌≡◌, ◌≢◌, refl, String, Option, none, List, [], ◌∷◌, pos, inr, All,
  map,
}
use kenbun.Prelude.Map.{Map}
use kenbun.Float.Fixed.{Fixed, fixed_float}
use kenbun.Provider.{ChatRequest, ok}
use kenbun.Exchange.{Tenant, minutes, present, refused}
use kenbun.RateLimit.{allow}
use kenbun.Cache.{memory_get, memory_set}
use kenbun.RateLimit.{cap_tokens, grown, new_token_bucket}
use kenbun.Health.{call, new_monitor}
use kenbun.Health.Traces.{run}
use kenbun.Selector.Sort.{insertion_sort}
use kenbun.Prelude.{quot, rem}
use kenbun.Prelude.Map.{lookup, insert}
use kenbun.Gateway.{budget_exhausted, serve_limited, serve_http}
use kenbun.Postgres.Rows.{new_row}
use kenbun.Admin.{AnalyticsRepository, TenantForm, create_tenant as create, fail_provider, tenant}
use kenbun.Server.{
  Happening, request, consumed, ticked, process, health, chat_completions, admin_call, admin_reply,
  Engine, Server, on_tenants, serve, serve_each,
}
use kenbun.Server.Enrol.{enrolled-served}
use kenbun.Server.Guard.{IsDenied, serve_each-outside}
use kenbun.Tests.Requests.{Cached, of_tenant, acme, desk, noon, morning, asked, stranger, question}
use kenbun.Tests.Tables.{errors, logged}
use kenbun.Server.Table.{unspent, unspent_rows}
use kenbun.Postgres.{update_spend}

-- a database that works
abbrev engine : Engine String
engine = record { fault = none; generated = "new-id"; fetches = [] }

abbrev opening : Server Fixed (Map Cached)
opening = record { world = morning; tenants = acme ∷ []; pending = [] }

abbrev form : TenantForm
form = record {
  name = "New";
  rate_limit_rpm = pos 30;
  budget_cents = pos 500;
  api_key = "fresh";
  provider_allowlist = [];
}

abbrev enrolled : Tenant
enrolled = new_row "new-id" "New" "fresh" (pos 30) (pos 500) []

-- what happens between the creation and the first use of the key
abbrev between : List (Happening Fixed String ChatRequest)
between =
    request engine noon health
    ∷ request engine noon (chat_completions asked)
    ∷ consumed [] (some logged)
    ∷ request engine noon (admin_call "kb" "" (fail_provider "openai"))
    ∷ ticked []
    ∷ []

-- no analytics: ClickHouse could not be opened
abbrev no_analytics : Option (AnalyticsRepository String String)
no_analytics = none

created :
    (serve errors desk no_analytics "kb" engine noon
      (admin_call "kb" "" (create (ok form)))
      opening).1
    ≡ admin_reply (tenant enrolled)
unfolding serve
created = refl

abbrev first_use : Server Fixed (Map Cached)
first_use =
    (serve_each errors desk no_analytics "kb" (λ m. m) between
      (serve errors desk no_analytics "kb" engine noon (admin_call "kb" "" (create (ok form)))
        opening).0).0

unused : present (desk.cache.get noon.started "fresh" first_use.world.store).1 ≡ none
unfolding serve serve_each process update_spend memory_get memory_set lookup insert cap_tokens grown
    new_token_bucket quot rem run call new_monitor insertion_sort
unused = refl

fresh_key : ◌≢◌ {A = String} "fresh" ""
fresh_key e = cc

enrolled-served_example :
    let s' = on_tenants errors desk no_analytics "kb" engine first_use.tenants in
    let (limiter, result) = allow 101 102 "new-id" (pos 30) first_use.world.limiter in
    let (store, got) = desk.cache.get 100 "fresh" first_use.world.store in
    (u : Tenant) × (unspent u ≡ enrolled)
    × (let saved = (desk.cache.set 100 "fresh" (of_tenant u) (minutes 5) store).0 in
        serve_http s' noon (record { api_key = "fresh"; body = question }) first_use.world ≡ (
          if budget_exhausted u
          then (record first_use.world { store = saved }, refused 402 "budget_exhausted")
          else serve_limited s' noon u question
              (record first_use.world { store = saved; limiter = limiter })
              result.allowed))
enrolled-served_example =
    enrolled-served errors desk no_analytics "kb" (λ m. m) engine engine noon noon "kb" "" form
      opening enrolled between question created fresh_key refl unused

-- a guessed token, a cost of the tenant that is charged, and a request to the gateway
abbrev outside : List (Happening Fixed String ChatRequest)
outside =
    request engine noon (admin_call "guess" "" (create (ok form)))
    ∷ consumed [] (some logged)
    ∷ ticked []
    ∷ request engine noon (chat_completions stranger)
    ∷ []

guessed : ◌≢◌ {A = String} "guess" "kb"
guessed e = cc

no_token : ◌≢◌ {A = String} "" "kb"
no_token e = cc

serve_each-outside_example :
    let (v', replies) = serve_each errors desk no_analytics "kb" (λ m. m) outside opening in
    (unspent_rows v'.tenants ≡ unspent_rows (acme ∷ [])) × All IsDenied replies
serve_each-outside_example =
    serve_each-outside errors desk no_analytics "kb" (λ m. m) outside opening
      (inr (guessed, no_token), (tt, (tt, (tt, tt))))

-- the tenant was charged meanwhile: one cent more than before
one_cent :
    map
      (λ t. t.spent_cents)
      (serve_each errors desk no_analytics "kb" (λ m. m) outside opening).0.tenants
    ≡ pos 41 ∷ []
unfolding serve serve_each process update_spend memory_get memory_set lookup insert ◌+ℤ◌
one_cent = refl
