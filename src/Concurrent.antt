-- ===== src/Concurrent.antt =====
-- internal/router/handler.go: requests that are served at the same time. A request goes from phase
-- to phase; each phase ends with one call of a component that the requests share (a lookup or a
-- write of the cache, `Allow`, `GetState` of one provider, the ranking, a record of the monitor,
-- `Log`, `Broadcast`), or with one turn of the loop of a stream, and such a call is one step. Steps
-- of different requests come in any order. Each request has its own readings of the clock.
pub mod Rest
pub mod Counts
pub mod Records
pub mod Pending
pub mod Calls
pub mod Passing
pub mod Admission
pub mod Soundness
pub mod Left
pub mod Progress
use kenbun.Prelude.{
  ℕ, zero, suc, ◌-◌, String, Bool, true, false, not, ◌&&◌, Option, none, some, List, [], ◌∷◌, ◌++◌,
  ℤ, pos, add_int, map, if◌then◌else◌, ◌==◌,
}
use kenbun.Float.{Float}
use kenbun.Health.{record_success, record_error, get_state}
use kenbun.Selector.{is_allowed, is_unhealthy, best, less}
use kenbun.RateLimit.{allow}
use kenbun.Provider.{ChatRequest, ChatResponse, Outcome, ok, err}
use kenbun.Exchange.{
  Clock, HttpRequest, Reply, Services, StreamEvent, Tenant, World, aborted, answered, cancelled,
  chunk, closed, hit, minutes, present, problem, refused, streamed,
}
use kenbun.Logging.{LogEvent}
use kenbun.Gateway.{budget_exhausted, sync_event, stream_event}

-- Where a request is, with the variables of the handler that the rest of it reads.
pub data Phase (F X B P Y : Type 0) : Type 0 where
  arrived : HttpRequest Y → Phase F X B P Y
  -- the cache has no tenant for the hash
  unknown : String → Y → Phase F X B P Y
  -- the database gave the tenant of the hash
  loaded : String → Tenant → Y → Phase F X B P Y
  known : Tenant → Y → Phase F X B P Y
  -- before the lookup of the answer under its key
  asking : Tenant → ChatRequest → String → Phase F X B P Y
  -- the providers still to filter, and the candidates
  choosing : Tenant → ChatRequest → String → List P → List P → Phase F X B P Y
  sending : P → Tenant → ChatRequest → String → Phase F X B P Y
  -- before `Log`, `Broadcast` and the write of the cache
  reporting : LogEvent F → String → B → Phase F X B P Y
  broadcasting : LogEvent F → String → B → Phase F X B P Y
  saving : String → B → Phase F X B P Y
  -- the loop of a stream, and what follows its `Log`
  streaming :
      P → ChatRequest → Tenant → List (StreamEvent X) → ℤ → ℤ → List String → Phase F X B P Y
  closing : LogEvent F → List String → Phase F X B P Y
  finished : Reply B → Phase F X B P Y

-- a request in flight
pub record Task (F X B P Y : Type 0) : Type 0 where
  pub clock : Clock
  pub phase : Phase F X B P Y

abbrev pub arrive : {F X B P Y : Type 0} → Clock × HttpRequest Y → Task F X B P Y
arrive (t, r) = record { clock = t; phase = arrived r }

module _ {F : Type 0} ⦃d : Float F⦄ {S B X P Y : Type 0} (s : Services S B X P Y) (t : Clock) where
  unfoldable pub identified : Y → Option Tenant → Phase F X B P Y
  identified body none = finished aborted
  identified body (some tenant) = known tenant body

  unfoldable pub looked_up : String → Y → Option B → Phase F X B P Y
  unfolding identified
  looked_up hash body (some bytes) = identified body (s.decode_tenant bytes)
  looked_up hash body none = unknown hash body

  unfoldable pub fetched : String → Y → Outcome X Tenant → Phase F X B P Y
  fetched hash body (err x) = finished (refused 401 "invalid_api_key")
  fetched hash body (ok tenant) = loaded hash tenant body

  unfoldable pub opened : Tenant → ChatRequest → Bool → Phase F X B P Y
  opened tenant req true =
      choosing tenant req (s.answer_key tenant.id req.model req.messages) s.providers []
  opened tenant req false = asking tenant req (s.answer_key tenant.id req.model req.messages)

  unfoldable pub parsed : Tenant → Option ChatRequest → Phase F X B P Y
  unfolding opened
  parsed tenant none = finished (refused 400 "invalid_request")
  parsed tenant (some req) = opened tenant req req.stream

  unfoldable pub admitted : Tenant → Y → Bool → Phase F X B P Y
  unfolding parsed
  admitted tenant body false = finished (refused 429 "rate_limited")
  admitted tenant body true = parsed tenant (s.decode_request body)

  unfoldable pub replayed : Tenant → ChatRequest → String → Option B → Phase F X B P Y
  replayed tenant req key (some bytes) = finished (hit bytes)
  replayed tenant req key none = choosing tenant req key s.providers []

  unfoldable pub routed_to : Tenant → ChatRequest → String → Option P → Bool → Phase F X B P Y
  routed_to tenant req key none stream = finished (refused 503 "no_available_providers")
  routed_to tenant req key (some p) true =
      streaming p req tenant (s.chat_stream p req) (pos 0) (pos 0) []
  routed_to tenant req key (some p) false = sending p tenant req key

  unfoldable pub enter : HttpRequest Y → World F S → Bool → World F S × Phase F X B P Y
  unfolding looked_up
  enter r w true = (w, finished (refused 401 "missing_api_key"))
  enter r w false =
      let hash = s.key_hash r.api_key in
      let (store, got) = s.cache.get t.started (s.tenant_key hash) w.store in
      (record w { store = store }, looked_up hash r.body (present got))

  unfoldable pub admit : Tenant → Y → World F S → Bool → World F S × Phase F X B P Y
  unfolding admitted allow
  admit tenant body w true = (w, finished (refused 402 "budget_exhausted"))
  admit tenant body w false =
      let (limiter, result) =
        allow t.created t.refilled tenant.id tenant.rate_limit_rpm w.limiter in
      (record w { limiter = limiter }, admitted tenant body result.allowed)

  unfoldable pub reported :
      P → Tenant → String → World F S → Outcome X ChatResponse → World F S × Phase F X B P Y
  unfolding sync_event record_success record_error
  reported p tenant key w (err x) = (
    record w { monitor = record_error t.replied (s.provider_name p) (pos 500) w.monitor },
    finished (refused 502 "provider_error"),
  )
  reported p tenant key w (ok resp) = (
    record w {
      monitor = record_success t.replied (s.provider_name p) (t.replied - t.started) w.monitor;
    },
    reporting (sync_event s t p tenant resp) key (s.encode_response resp),
  )

  -- One turn of the loop of a stream; with nothing to pick, it waits.
  unfoldable pub pick_event :
      P
      → ChatRequest
      → Tenant
      → List (StreamEvent X)
      → ℤ
      → ℤ
      → List String
      → World F S
      → World F S × Phase F X B P Y
  unfolding stream_event record_error add_int
  pick_event p req tenant [] m n sent w = (w, streaming p req tenant [] m n sent)
  pick_event p req tenant (closed ∷ es) m n sent w =
      let event = stream_event s t p req tenant m n in
      (record w { log = w.log ++ (event ∷ []) }, closing event sent)
  pick_event p req tenant (chunk c ∷ es) m n sent w = (
    w,
    streaming p req tenant es (add_int m c.prompt_tokens) (add_int n c.completion_tokens)
        (sent ++ (c.content ∷ [])),
  )
  pick_event p req tenant (problem none ∷ es) m n sent w = (w, streaming p req tenant es m n sent)
  pick_event p req tenant (problem (some x) ∷ es) m n sent w = (
    record w { monitor = record_error t.replied (s.provider_name p) (pos 502) w.monitor },
    finished (streamed sent),
  )
  pick_event p req tenant (cancelled ∷ es) m n sent w = (w, finished (streamed sent))

  -- One step of a request; a finished request stays as it is.
  unfoldable pub advance : Phase F X B P Y → World F S → World F S × Phase F X B P Y
  unfolding enter fetched admit replayed is_allowed get_state best less routed_to reported
      pick_event
  advance (arrived r) w = enter r w (r.api_key == "")
  advance (unknown hash body) w = (w, fetched hash body (s.find_tenant hash))
  advance (loaded hash tenant body) w =
      let bytes = s.encode_tenant tenant in
      let saved = (s.cache.set t.started (s.tenant_key hash) bytes (minutes 5) w.store).0 in
      (record w { store = saved }, known tenant body)
  advance (known tenant body) w = admit tenant body w (budget_exhausted tenant)
  advance (asking tenant req key) w =
      let (store, got) = s.cache.get t.routed key w.store in
      (record w { store = store }, replayed tenant req key (present got))
  advance (choosing tenant req key [] kept) w = (
    w,
    routed_to tenant req key (best s.sort (less s.provider_name t.routed w.monitor) kept)
        req.stream,
  )
  advance (choosing tenant req key (p ∷ ps) kept) w =
      let asked = get_state t.routed (s.provider_name p) w.monitor in
      let allowed = is_allowed (s.provider_name p) tenant.provider_allowlist in
      (
        record w { monitor = if allowed then asked.0 else w.monitor },
        choosing tenant req key ps
            (if allowed && not (is_unhealthy asked.1) then kept ++ (p ∷ []) else kept),
      )
  advance (sending p tenant req key) w = reported p tenant key w (s.chat p req)
  advance (reporting event key bytes) w =
      (record w { log = w.log ++ (event ∷ []) }, broadcasting event key bytes)
  advance (broadcasting event key bytes) w =
      (record w { broadcast = w.broadcast ++ (event ∷ []) }, saving key bytes)
  advance (saving key bytes) w = (
    record w { store = (s.cache.set t.logged key bytes (minutes 60) w.store).0 },
    finished (answered bytes),
  )
  advance (streaming p req tenant es m n sent) w = pick_event p req tenant es m n sent w
  advance (closing event sent) w =
      (record w { broadcast = w.broadcast ++ (event ∷ []) }, finished (streamed sent))
  advance (finished reply) w = (w, finished reply)

  -- a request that runs alone for some steps
  unfoldable pub steps : ℕ → Phase F X B P Y → World F S → World F S × Phase F X B P Y
  unfolding advance
  steps zero phase w = (w, phase)
  steps (suc n) phase w = let (w', phase') = advance phase w in steps n phase' w'

module _ {F : Type 0} ⦃d : Float F⦄ {S B X P Y : Type 0} (s : Services S B X P Y) where
  -- One step of the request at a position; there is none out of range.
  unfoldable pub turn : ℕ → World F S → List (Task F X B P Y) → World F S × List (Task F X B P Y)
  unfolding advance
  turn i w [] = (w, [])
  turn zero w (k ∷ ks) =
      let (w', phase) = advance s k.clock k.phase w in
      (w', record { clock = k.clock; phase = phase } ∷ ks)
  turn (suc i) w (k ∷ ks) = let (w', ks') = turn i w ks in (w', k ∷ ks')

  -- the steps of the requests, in the order of their positions in the schedule
  unfoldable pub interleave :
      List ℕ → World F S → List (Task F X B P Y) → World F S × List (Task F X B P Y)
  unfolding turn
  interleave [] w ks = (w, ks)
  interleave (i ∷ schedule) w ks = let (w', ks') = turn i w ks in interleave schedule w' ks'
