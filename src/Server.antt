-- ===== src/Server.antt =====
-- cmd/gateway/main.go: the routes of the server, with the gateway and the admin API over the one
-- table of tenants and the one monitor that `main` gives to both, and the budget processor that
-- `main` starts on the same table. chi, which matches a path, and its middlewares are libraries: a
-- request comes as its route. The engine of the database and what Kafka delivers are parameters.
pub mod Table
pub mod Keys
pub mod Enrol
pub mod Guard
use kenbun.Prelude.{String, Option, List, [], ◌∷◌}
use kenbun.Float.{Float}
use kenbun.Exchange.{Tenant, HttpRequest, Reply, Services, Clock, World}
use kenbun.Prelude.Map.{Map}
use kenbun.Logging.{LogEvent}
use kenbun.Budget.{Event, message, tick, start}
use kenbun.Postgres.{
  SqlErrors, Fetch, get_tenant_by_api_key_hash, get_all_tenants, create_tenant, update_spend,
}
use kenbun.Admin.{Route, AdminReply, AnalyticsRepository, Repositories, admin}
use kenbun.Gateway.{serve_http}

-- `/health`, `/v1/chat/completions`, and `/admin` with the token of the header and of the query
pub data Incoming (X Y : Type 0) : Type 0 where
  health : Incoming X Y
  chat_completions : HttpRequest Y → Incoming X Y
  admin_call : String → String → Route X → Incoming X Y

pub data Response (B X J : Type 0) : Type 0 where
  alive : Response B X J
  chat_reply : Reply B → Response B X J
  admin_reply : AdminReply X J → Response B X J

-- What the engine of the database does for a request: the fault that keeps its statement from being
-- run, the id that it generates, and how its rows are read.
pub record Engine (X : Type 0) : Type 0 where
  pub fault : Option X
  pub generated : String
  pub fetches : List (Fetch X)

-- The state that the requests and the processor share.
pub record Server (F S : Type 0) : Type 0 where
  pub world : World F S
  pub tenants : List Tenant
  pub pending : Map F

-- What happens next: a request, a message that the processor reads (`none` if it cannot be
-- decoded), or a tick of its flushes. Both of these come with the faults that their updates meet.
-- The context of `main` has no end, so the processor does not return.
pub data Happening (F X Y : Type 0) : Type 0 where
  request : Engine X → Clock → Incoming X Y → Happening F X Y
  consumed : List (Option X) → Option (LogEvent F) → Happening F X Y
  ticked : List (Option X) → Happening F X Y

module _ {F : Type 0} ⦃d : Float F⦄ {S X : Type 0} (errors : SqlErrors X)
    (order : Map F → Map F) where
  -- one turn of the processor's loop
  unfoldable pub process : List (Option X) → Event F → Server F S → Server F S
  unfolding start update_spend
  process faults event v =
      let (pending, db, returned) =
        start (update_spend errors) order (event ∷ []) v.pending (v.tenants, faults) in
      record v { tenants = db.0; pending = pending }

module _ {S B X P Y J : Type 0} (errors : SqlErrors X) (s : Services S B X P Y)
    (analytics : Option (AnalyticsRepository X J)) (secret : String) where
  -- the `database` of `main`, as the gateway reads it
  abbrev pub on_tenants : Engine X → List Tenant → Services S B X P Y
  on_tenants e tenants = record s {
    find_tenant = λ hash. get_tenant_by_api_key_hash errors e.fault hash tenants;
  }

  -- the same, as the admin handlers use it
  abbrev pub admin_repositories : Engine X → Repositories (List Tenant) X J
  admin_repositories e = record {
    get_all_tenants = get_all_tenants errors e.fault e.fetches;
    create = λ name hash rpm budget allowlist.
        create_tenant errors e.fault e.generated name hash rpm budget allowlist;
    analytics = analytics;
    key_hash = s.key_hash;
  }

  module _ {F : Type 0} ⦃d : Float F⦄ where
    unfoldable pub serve :
        Engine X → Clock → Incoming X Y → Server F S → Server F S × Response B X J
    unfolding serve_http admin get_tenant_by_api_key_hash get_all_tenants create_tenant
    serve e t health v = (v, alive)
    serve e t (chat_completions r) v =
        let (world, reply) = serve_http (on_tenants e v.tenants) t r v.world in
        (record v { world = world }, chat_reply reply)
    serve e t (admin_call header query route) v =
        let (tenants, monitor, reply) =
          admin (admin_repositories e) secret header query t.started route v.tenants
            v.world.monitor in
        (
          record v { world = record v.world { monitor = monitor }; tenants = tenants },
          admin_reply reply,
        )

    module _ (order : Map F → Map F) where
      -- Requests, each with its readings of the clock and what the engine does, and turns of the
      -- processor, one after the other; the responses to the requests.
      unfoldable pub serve_each :
          List (Happening F X Y) → Server F S → Server F S × List (Response B X J)
      unfolding serve process
      serve_each [] v = (v, [])
      serve_each (request e t r ∷ rs) v =
          let (v', reply) = serve e t r v in
          let (v'', replies) = serve_each rs v' in (v'', reply ∷ replies)
      serve_each (consumed faults o ∷ rs) v =
          serve_each rs (process errors order faults (message o) v)
      serve_each (ticked faults ∷ rs) v = serve_each rs (process errors order faults tick v)
