-- ===== src/Gateway.antt =====
-- internal/router/handler.go: the HTTP handler of the gateway, as state passing over the world that
-- a request can change. A call that branches on a computed value is a helper by clauses: what the
-- source does from that value on. `Allow` of the token buckets gives no error. The response writer
-- of a stream is taken to be a flusher.
pub mod Budgets
pub mod Billing
pub mod Checks
pub mod Dispatch
pub mod Answers
pub mod Streams
pub mod Soundness
pub mod Replay
pub mod Keys
pub mod Stale
use kenbun.Prelude.{
  ℕ, ◌-◌, ◌*◌, ◌^◌, String, Bool, true, false, ◌&&◌, Option, none, some, List, [], ◌∷◌, ◌++◌, ℤ,
  pos, add_int, ltb_ℤ, leb_ℤ, if◌then◌else◌, ◌==◌,
}
use kenbun.Float.{Float, zero_float}
use kenbun.Health.{EwmaMonitor, milliseconds, record_success, record_error}
use kenbun.Selector.{select}
use kenbun.RateLimit.{TokenBucket, allow}
use kenbun.Provider.{Message, ChatRequest, ChatResponse, ChatChunk, Outcome, ok, err, estimate_cost}
use kenbun.Exchange.{
  Clock, HttpRequest, Reply, Services, StreamEvent, Tenant, World, aborted, answered, cancelled,
  chunk, closed, hit, minutes, present, problem, refused, streamed, waiting,
}
use kenbun.Logging.{LogEvent}

unfoldable pub budget_exhausted : Tenant → Bool
budget_exhausted tenant =
    ltb_ℤ (pos 0) tenant.budget_cents && leb_ℤ tenant.budget_cents tenant.spent_cents

module _ {F : Type 0} ⦃d : Float F⦄ {S B X P Y : Type 0} (s : Services S B X P Y) (t : Clock) where
  -- `Log` and `Broadcast`
  unfoldable pub write_log : LogEvent F → World F S → World F S
  write_log event w = record w {
    log = w.log ++ (event ∷ []);
    broadcast = w.broadcast ++ (event ∷ []);
  }

  -- The tenant of a key hash: `err` where the database has none, `ok none` for a nil pointer.
  unfoldable pub load_tenant :
      String → World F S → Outcome X Tenant → World F S × Outcome X (Option Tenant)
  load_tenant hash w (err x) = (w, err x)
  load_tenant hash w (ok tenant) =
      let bytes = s.encode_tenant tenant in
      let saved = (s.cache.set t.started (s.tenant_key hash) bytes (minutes 5) w.store).0 in
      (record w { store = saved }, ok (some tenant))

  unfoldable pub read_tenant : String → World F S → Option B → World F S × Outcome X (Option Tenant)
  unfolding load_tenant
  read_tenant hash w (some bytes) = (w, ok (s.decode_tenant bytes))
  read_tenant hash w none = load_tenant hash w (s.find_tenant hash)

  unfoldable pub authenticate : String → World F S → World F S × Outcome X (Option Tenant)
  unfolding read_tenant
  authenticate hash w =
      let (store, got) = s.cache.get t.started (s.tenant_key hash) w.store in
      read_tenant hash (record w { store = store }) (present got)

  unfoldable pub sync_event : P → Tenant → ChatResponse → LogEvent F
  sync_event p tenant resp = record {
    request_id = "";
    tenant_id = tenant.id;
    provider = s.provider_name p;
    model = resp.model;
    prompt_tokens = resp.prompt_tokens;
    completion_tokens = resp.completion_tokens;
    cost_cents = estimate_cost resp.model resp.prompt_tokens resp.completion_tokens;
    latency_ms = pos (milliseconds (t.replied - t.started));
    status = pos 200;
    cached = false;
    timestamp = pos t.logged;
  }

  -- `handleSync` from the provider's answer on
  unfoldable pub respond :
      P → Tenant → String → World F S → Outcome X ChatResponse → World F S × Reply B
  unfolding write_log sync_event record_success record_error
  respond p tenant cache_key w (err x) = (
    record w { monitor = record_error t.replied (s.provider_name p) (pos 500) w.monitor },
    refused 502 "provider_error",
  )
  respond p tenant cache_key w (ok resp) =
      let m = record_success t.replied (s.provider_name p) (t.replied - t.started) w.monitor in
      let w' = write_log (sync_event p tenant resp) (record w { monitor = m }) in
      let bytes = s.encode_response resp in
      let saved = (s.cache.set t.logged cache_key bytes (minutes 60) w'.store).0 in
      (record w' { store = saved }, answered bytes)

  unfoldable pub handle_sync : P → ChatRequest → Tenant → String → World F S → World F S × Reply B
  unfolding respond
  handle_sync p req tenant cache_key w = respond p tenant cache_key w (s.chat p req)

  -- Neither the cost nor the model of the answer is known here: the cost is the zero value.
  unfoldable pub stream_event : P → ChatRequest → Tenant → ℤ → ℤ → LogEvent F
  stream_event p req tenant prompt_tokens completion_tokens = record {
    request_id = "";
    tenant_id = tenant.id;
    provider = s.provider_name p;
    model = req.model;
    prompt_tokens = prompt_tokens;
    completion_tokens = completion_tokens;
    cost_cents = zero_float;
    latency_ms = pos (milliseconds (t.replied - t.started));
    status = pos 200;
    cached = false;
    timestamp = pos t.logged;
  }

  -- The loop: the events picked, the two sums and what was written so far. When nothing more is
  -- picked, the `select` waits.
  unfoldable pub stream_loop :
      P
      → ChatRequest
      → Tenant
      → List (StreamEvent X)
      → ℤ
      → ℤ
      → List String
      → World F S
      → World F S × Reply B
  unfolding write_log stream_event record_error add_int
  stream_loop p req tenant [] prompt completion sent w = (w, waiting sent)
  stream_loop p req tenant (closed ∷ es) prompt completion sent w =
      (write_log (stream_event p req tenant prompt completion) w, streamed sent)
  stream_loop p req tenant (chunk c ∷ es) prompt completion sent w =
      stream_loop p req tenant es (add_int prompt c.prompt_tokens)
        (add_int completion c.completion_tokens) (sent ++ (c.content ∷ [])) w
  stream_loop p req tenant (problem none ∷ es) prompt completion sent w =
      stream_loop p req tenant es prompt completion sent w
  stream_loop p req tenant (problem (some x) ∷ es) prompt completion sent w = (
    record w { monitor = record_error t.replied (s.provider_name p) (pos 502) w.monitor },
    streamed sent,
  )
  stream_loop p req tenant (cancelled ∷ es) prompt completion sent w = (w, streamed sent)

  unfoldable pub handle_stream : P → ChatRequest → Tenant → World F S → World F S × Reply B
  unfolding stream_loop
  handle_stream p req tenant w = stream_loop p req tenant (s.chat_stream p req) (pos 0) (pos 0) [] w

  -- the end of `ServeHTTP`: the selected provider, if there is one, and whether to stream
  unfoldable pub hand_over :
      Tenant → ChatRequest → String → World F S → Option P → Bool → World F S × Reply B
  unfolding handle_sync handle_stream
  hand_over tenant req cache_key w none stream = (w, refused 503 "no_available_providers")
  hand_over tenant req cache_key w (some p) true = handle_stream p req tenant w
  hand_over tenant req cache_key w (some p) false = handle_sync p req tenant cache_key w

  -- Routing and dispatch.
  unfoldable pub dispatch : Tenant → ChatRequest → String → World F S → World F S × Reply B
  unfolding select hand_over
  dispatch tenant req cache_key w =
      let (m, chosen) =
        select s.provider_name s.sort t.routed s.providers tenant.provider_allowlist w.monitor in
      hand_over tenant req cache_key (record w { monitor = m }) chosen req.stream

  -- what the cache gave for the request
  unfoldable pub reply_cached :
      Tenant → ChatRequest → String → World F S → Option B → World F S × Reply B
  unfolding dispatch
  reply_cached tenant req cache_key w (some bytes) = (w, hit bytes)
  reply_cached tenant req cache_key w none = dispatch tenant req cache_key w

  -- The cache check.
  unfoldable pub check_cache : Tenant → ChatRequest → String → World F S → World F S × Reply B
  unfolding reply_cached
  check_cache tenant req cache_key w =
      let (store, got) = s.cache.get t.routed cache_key w.store in
      reply_cached tenant req cache_key (record w { store = store }) (present got)

  -- A stream does not look into the cache.
  unfoldable pub serve_chat : Tenant → ChatRequest → Bool → World F S → World F S × Reply B
  unfolding dispatch check_cache
  serve_chat tenant req true w =
      dispatch tenant req (s.answer_key tenant.id req.model req.messages) w
  serve_chat tenant req false w =
      check_cache tenant req (s.answer_key tenant.id req.model req.messages) w

  unfoldable pub serve_body : Tenant → World F S → Option ChatRequest → World F S × Reply B
  unfolding serve_chat
  serve_body tenant w none = (w, refused 400 "invalid_request")
  serve_body tenant w (some req) = serve_chat tenant req req.stream w

  -- the limiter's answer, and then the body
  unfoldable pub serve_limited : Tenant → Y → World F S → Bool → World F S × Reply B
  unfolding serve_body
  serve_limited tenant body w false = (w, refused 429 "rate_limited")
  serve_limited tenant body w true = serve_body tenant w (s.decode_request body)

  -- whether the budget is exhausted, and then the rate limit
  unfoldable pub serve_budget : Tenant → Y → World F S → Bool → World F S × Reply B
  unfolding allow serve_limited
  serve_budget tenant body w true = (w, refused 402 "budget_exhausted")
  serve_budget tenant body w false =
      let (limiter, result) =
        allow t.created t.refilled tenant.id tenant.rate_limit_rpm w.limiter in
      serve_limited tenant body (record w { limiter = limiter }) result.allowed

  unfoldable pub serve_tenant : Y → World F S → Outcome X (Option Tenant) → World F S × Reply B
  unfolding budget_exhausted serve_budget
  serve_tenant body w (err x) = (w, refused 401 "invalid_api_key")
  serve_tenant body w (ok none) = (w, aborted)
  serve_tenant body w (ok (some tenant)) = serve_budget tenant body w (budget_exhausted tenant)

  unfoldable pub serve_keyed : HttpRequest Y → World F S → Bool → World F S × Reply B
  unfolding authenticate serve_tenant
  serve_keyed r w true = (w, refused 401 "missing_api_key")
  serve_keyed r w false =
      let (w', found) = authenticate (s.key_hash r.api_key) w in serve_tenant r.body w' found

  unfoldable pub serve_http : HttpRequest Y → World F S → World F S × Reply B
  unfolding serve_keyed
  serve_http r w = serve_keyed r w (r.api_key == "")
