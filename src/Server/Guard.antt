-- ===== src/Server/Guard.antt =====
-- internal/router/admin.go, cmd/gateway/main.go: what requests without the admin token can change.
use kenbun.Prelude.{String, ◌≡◌, ◌≢◌, refl, ap, ◌∙◌, ◌⊎◌, Option, List, [], ◌∷◌, All}
use kenbun.Float.{Float}
use kenbun.Exchange.{Services, Clock}
use kenbun.Postgres.{SqlErrors}
use kenbun.Admin.{AnalyticsRepository, unauthorized}
use kenbun.Admin.Drain.{admin-guarded}
use kenbun.Prelude.Map.{Map}
use kenbun.Server.Table.{unspent_rows, consumed-unspent, ticked-unspent}
use kenbun.Budget.{message, tick}
use kenbun.Server.{
  process, Happening, request, consumed, ticked, Incoming, health, chat_completions, admin_call,
  Engine, Server, admin_repositories, serve, serve_each, alive, chat_reply, admin_reply, Response,
}

-- no request of the admin API, or one whose tokens are both wrong
abbrev pub IsOutside : {X Y : Type 0} → String → Incoming X Y → Type 0
IsOutside secret health = Unit
IsOutside secret (chat_completions r) = Unit
IsOutside secret (admin_call header query route) =
    (secret ≡ "") ⊎ ((header ≢ secret) × (query ≢ secret))

-- a response of the admin API that tells nothing
abbrev pub IsDenied : {B X J : Type 0} → Response B X J → Type 0
IsDenied alive = Unit
IsDenied (chat_reply reply) = Unit
IsDenied (admin_reply reply) = reply ≡ unauthorized

module _ {S B X P Y J : Type 0} (errors : SqlErrors X) (s : Services S B X P Y)
    (analytics : Option (AnalyticsRepository X J)) (secret : String) {F : Type 0}
    ⦃d : Float F⦄ where
  serve-outside :
      (e : Engine X) (t : Clock) (r : Incoming X Y) (v : Server F S)
      → IsOutside secret r
      → let (v', reply) = serve errors s analytics secret e t r v in
        (v'.tenants ≡ v.tenants) × IsDenied reply
  unfolding serve
  serve-outside e t health v h = (refl, tt)
  serve-outside e t (chat_completions r) v h = (refl, tt)
  serve-outside e t (admin_call header query route) v h =
      let same =
        admin-guarded (admin_repositories errors s analytics secret e) secret header query t.started
          route v.tenants v.world.monitor h in
      (ap (λ r. r.0) same, ap (λ r. r.2) same)

  -- requests are outside, and the processor's turns are no requests
  abbrev pub IsOutsider : Happening F X Y → Type 0
  IsOutsider (request e t r) = IsOutside secret r
  IsOutsider (consumed faults o) = Unit
  IsOutsider (ticked faults) = Unit

  -- Whatever requests come and whatever the processor does between them, if no request of the admin
  -- API carries the secret or if the secret is empty, the table of tenants stays as it was but for
  -- what they have spent, and every admin request is answered as unauthorized.
  pub serve_each-outside :
      (order : Map F → Map F) (rs : List (Happening F X Y)) (v : Server F S)
      → All IsOutsider rs
      → let (v', replies) = serve_each errors s analytics secret order rs v in
        (unspent_rows v'.tenants ≡ unspent_rows v.tenants) × All IsDenied replies
  unfolding serve_each
  serve_each-outside order [] v h = (refl, tt)
  serve_each-outside order (request e t r ∷ rs) v (h, hs) =
      let (same, denied) = serve-outside e t r v h in
      let (later, rest) =
        serve_each-outside order rs (serve errors s analytics secret e t r v).0 hs in
      (later ∙ ap unspent_rows same, (denied, rest))
  serve_each-outside order (consumed faults o ∷ rs) v (h, hs) =
      let (later, rest) =
        serve_each-outside order rs (process errors order faults (message o) v) hs in
      (later ∙ consumed-unspent errors order faults o v, rest)
  serve_each-outside order (ticked faults ∷ rs) v (h, hs) =
      let (later, rest) = serve_each-outside order rs (process errors order faults tick v) hs in
      (later ∙ ticked-unspent errors order faults v, rest)
