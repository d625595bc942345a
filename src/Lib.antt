-- ===== src/Lib.antt =====
-- Kenbun is a gateway in front of providers of language models. A request of a tenant passes, in
-- this order, the tenant's lookup by API key, the budget, the rate limiter, the answer cache, the
-- selector and a provider; the outcome goes to the health monitor, to the logs and to the cache,
-- and a background processor charges what was logged.
--
-- The parts and their files:
--   * Prelude: names and lemmas that the parts share; `ℤ` with `wrap64` is Go's 64-bit `int`, `Map`
--     is a Go map as an association list, with `lookup` and `insert` for reads and writes.
--   * Float: float64 as an interface: the operations that the source uses and laws of IEEE
--     arithmetic that hold of them (Float.IsIeee). Float.Fixed shows that the laws can be met
--     together.
--   * Health: internal/router/router.go. The state is `EwmaMonitor`; RecordSuccess, RecordError,
--     ForceFailure and GetState are `record_success`, `record_error`, `force_failure`, `get_state`,
--     and `call` is any of them. Health.Traces runs sequences of calls.
--   * Selector: internal/router/selector.go. `select` is Select, with `candidates` as its filter
--     and `less` as the comparison. A read of the monitor may create an entry, so they pass it on.
--   * RateLimit: internal/ratelimit/ratelimit.go. `allow` is Allow, split as the source is: the
--     bucket found or made, the refill, the cap, the decision. RateLimit.Sync: `background_sync` is
--     a tick of backgroundSync, `run_script` its Lua script.
--   * Provider: internal/provider/provider.go; Provider.Resilient: `chat` is Chat of
--     internal/provider/resilient.go, over a script of what the base provider, the context and the
--     timer do; Provider.Resilient.Streaming: `resilient_stream` is what the goroutine of
--     ChatStream sends.
--   * Channels: the two channels of a stream. `Sees` is a step relation: from a pipe, the events
--     that the `select` of the handler may pick. It also holds for a handler that is late to its
--     `select`.
--   * Adapters: internal/provider/openai.go, gemini.go, ollama.go and anthropic.go: requests,
--     answers and what the goroutines send. `none` is a panic.
--   * Cache: internal/cache/cache.go and internal/cache/memory.go; `two_tier_get` and
--     `two_tier_set` over a local and a remote store that may lose entries or apply writes late.
--   * Logging: the log record of internal/logging/logging.go, with `log_message` for Log and
--     `broadcast_payload` for Broadcast.
--   * Budget: internal/db/processor.go. `start` is Start over the events that its `select` picks,
--     `flush` is flush. Budget.Account is the contract of the processor for one tenant, and
--     Budget.Refines relates the loop to it. Budget.Faults says of a run that the updates of a
--     tenant report no error in it.
--   * Postgres: internal/db/db.go on the table of scripts/postgres-init.sql. `update_tenant_spend`,
--     `get_tenant_by_api_key_hash`, `get_all_tenants` and `create_tenant` are the statements with
--     their faults.
--   * Exchange, Gateway: internal/router/handler.go with the tenant of internal/db/db.go;
--     Gateway.Keys has the cache key of an answer, with the digest as a parameter, and Gateway is
--     of any such key. `serve_http`, `handle_sync` and `handle_stream` are ServeHTTP, handleSync
--     and handleStream, over a `World` with the limiter, the monitor, the cache and the logs.
--   * Admin: internal/router/admin.go. `admin` is the token check in front of `handle`, the routes.
--     The analytics repository is nil where ClickHouse could not be opened.
--   * Concurrent: the handler of internal/router/handler.go once more, as steps: a `Phase` is where
--     a request is, `advance` makes one step, `interleave` the steps of many requests in a given
--     order. `steps_left` is a bound on the steps of one, bounds them, by the number of providers
--     and the events of their streams; a stream whose events are over and did not end it leaves its
--     handler waiting, as the `select` does.
--   * Server: the routes of cmd/gateway/main.go, with Gateway and Admin over one table and one
--     monitor, and the turns of the budget processor that main starts on the same table; the
--     repositories of Admin are the statements of Postgres.
--   * Simulate: scripts/simulate.go, with its loop and wait group as a step relation.
--   * Mock: internal/provider/mock.go. `mock_chat` and `mock_stream` are Chat and ChatStream.
--   * Pipeline: the requests of the gateway, its log, the processor and the table, one after the
--     other; Pipeline.Interleaved, for requests that are served at the same time.
--   * Analytics: GetGlobalStats, GetChartData and GetTenantStats of internal/logging/clickhouse.go.
--   * Config, Main: internal/config/config.go, and what cmd/gateway/main.go starts with:
--     `choose_cache`, `start_bases` and `start_providers`; Main.Startup: `start_up` is `main` up to
--     its routes, over what the constructors of the libraries give.
--   * Tests: runs at concrete inputs on the numbers of Float.Fixed.
--
-- Bounds: the retry loop recurses on the rounds that its header admits (`rounds`), so it needs no
-- other fuel; every other loop recurses on its list. Sums of tokens wrap as `int` does. Clock
-- readings are natural numbers of nanoseconds; the limiter's theorems ask for readings below 2 ^
-- 63, limits below 2 ^ 63, and limits up to 2 ^ 52 or 2 ^ 53 where float64 has to count them
-- exactly.
--
-- Concurrency: Allow and every method of the monitor hold their locks over the whole body, so each
-- is one step, and sequences of steps are the interleavings. A request is a sequence of such steps:
-- a call of a component that requests share, or a turn of a stream's loop, is one; those of
-- different requests come in any order, so a schedule is a list of positions of requests. The
-- ranking of the selector is one step, although it reads the monitor several times. What waits on a
-- channel or a wait group is a step relation (Channels, Simulate).
--
-- Not modelled: Redis, Kafka, ristretto, chi with its middlewares, HTTP, JSON, hashes, random
-- numbers and the engines of ClickHouse and Postgres, which are parameters; CORS, which is a
-- setting of a library; the web client in ui/.
pub mod Prelude
pub mod Float
pub mod Health
pub mod Selector
pub mod RateLimit
pub mod Provider
pub mod Cache
pub mod Logging
pub mod Budget
pub mod Exchange
pub mod Analytics
pub mod Config
pub mod Main
pub mod Pipeline
pub mod Channels
pub mod Concurrent
pub mod Postgres
pub mod Adapters
pub mod Gateway
pub mod Tests
pub mod Admin
pub mod Server
pub mod Mock
pub mod Simulate
