-- ===== src/Concurrent/Rest.antt =====
-- internal/router/handler.go: what the handler still does from a phase on, which no step changes.
use mathlib.Core.List.{append_assoc, append-nil}
use kenbun.Prelude.{
  ℕ, zero, suc, String, ◌≡◌, refl, sym, ap, ◌∙◌, Bool, true, false, not, ◌&&◌, Option, none, some,
  List, [], ◌∷◌, ◌++◌, ℤ, if◌then◌else◌, ◌==◌,
}
use kenbun.Float.{Float}
use kenbun.Health.{EwmaMonitor, get_state}
use kenbun.Selector.{candidates, is_allowed, is_unhealthy, best, less, select}
use kenbun.RateLimit.{allow}
use kenbun.Provider.{ChatRequest, ChatResponse, Outcome, ok, err}
use kenbun.Exchange.{
  Clock, HttpRequest, Reply, Services, StreamEvent, Tenant, World, answered, cancelled, chunk,
  closed, minutes, present, problem, streamed,
}
use kenbun.Gateway.{
  budget_exhausted, write_log, load_tenant, read_tenant, authenticate, respond, handle_sync,
  stream_loop, handle_stream, hand_over, dispatch, reply_cached, check_cache, serve_chat,
  serve_body, serve_limited, serve_budget, serve_tenant, serve_keyed, serve_http,
}
use kenbun.Concurrent.{
  Phase, arrived, unknown, loaded, known, asking, choosing, sending, reporting, broadcasting,
  saving, streaming, closing, finished, identified, looked_up, fetched, opened, parsed, admitted,
  replayed, routed_to, enter, admit, reported, pick_event, advance, steps,
}

module _ {F : Type 0} ⦃d : Float F⦄ {S B X P Y : Type 0} (s : Services S B X P Y) (t : Clock) where
  -- the rest of the filter and of the dispatch
  abbrev choose :
      Tenant
      → ChatRequest
      → String
      → List P
      → EwmaMonitor F × List P
      → World F S
      → World F S × Reply B
  choose tenant req key kept (m, found) w =
      hand_over s t tenant req key (record w { monitor = m })
        (best s.sort (less s.provider_name t.routed m) (kept ++ found)) req.stream

  -- What the handler does from a phase to its end.
  unfoldable pub rest : Phase F X B P Y → World F S → World F S × Reply B
  unfolding serve_http load_tenant serve_budget check_cache candidates hand_over respond stream_loop
  rest (arrived r) w = serve_http s t r w
  rest (unknown hash body) w =
      let (w', found) = load_tenant s t hash w (s.find_tenant hash) in
      serve_tenant s t body w' found
  rest (loaded hash tenant body) w =
      let (w', found) = load_tenant s t hash w (ok tenant) in serve_tenant s t body w' found
  rest (known tenant body) w = serve_tenant s t body w (ok (some tenant))
  rest (asking tenant req key) w = check_cache s t tenant req key w
  rest (choosing tenant req key ps kept) w =
      choose tenant req key kept
        (candidates s.provider_name t.routed tenant.provider_allowlist ps w.monitor) w
  rest (sending p tenant req key) w = handle_sync s t p req tenant key w
  rest (reporting event key bytes) w = (
    record w {
      log = w.log ++ (event ∷ []);
      broadcast = w.broadcast ++ (event ∷ []);
      store = (s.cache.set t.logged key bytes (minutes 60) w.store).0;
    },
    answered bytes,
  )
  rest (broadcasting event key bytes) w = (
    record w {
      broadcast = w.broadcast ++ (event ∷ []);
      store = (s.cache.set t.logged key bytes (minutes 60) w.store).0;
    },
    answered bytes,
  )
  rest (saving key bytes) w =
      (record w { store = (s.cache.set t.logged key bytes (minutes 60) w.store).0 }, answered bytes)
  rest (streaming p req tenant es m n sent) w = stream_loop s t p req tenant es m n sent w
  rest (closing event sent) w =
      (record w { broadcast = w.broadcast ++ (event ∷ []) }, streamed sent)
  rest (finished reply) w = (w, reply)

  abbrev pub Follows : World F S × Phase F X B P Y → World F S × Reply B → Type 0
  Follows (w, phase) result = rest phase w ≡ result

  identified-Follows :
      (body : Y) (w : World F S) (found : Option Tenant)
      → rest (identified s t body found) w ≡ serve_tenant s t body w (ok found)
  unfolding rest identified serve_tenant
  identified-Follows body w none = refl
  identified-Follows body w (some tenant) = refl

  enter-Follows :
      (r : HttpRequest Y) (w : World F S) (b : Bool)
      → Follows (enter s t r w b) (serve_keyed s t r w b)
  unfolding rest enter serve_keyed authenticate looked_up read_tenant
  enter-Follows r w true = refl
  enter-Follows r w false = go _ _
    where
      go :
          (w : World F S) (got : Option B)
          → let hash = s.key_hash r.api_key in
            let (w', found) = read_tenant s t hash w got in
            rest (looked_up s t hash r.body got) w ≡ serve_tenant s t r.body w' found
      go w (some bytes) = identified-Follows r.body w (s.decode_tenant bytes)
      go w none = refl

  fetched-Follows :
      (hash : String) (body : Y) (w : World F S) (o : Outcome X Tenant)
      → let (w', found) = load_tenant s t hash w o in
        Follows (w, fetched s t hash body o) (serve_tenant s t body w' found)
  unfolding rest fetched load_tenant serve_tenant
  fetched-Follows hash body w (err x) = refl
  fetched-Follows hash body w (ok tenant) = refl

  opened-Follows :
      (tenant : Tenant) (req : ChatRequest) (w : World F S) (b : Bool)
      → rest (opened s t tenant req b) w ≡ serve_chat s t tenant req b w
  unfolding rest opened serve_chat dispatch select
  opened-Follows tenant req w true = refl
  opened-Follows tenant req w false = refl

  admitted-Follows :
      (tenant : Tenant) (body : Y) (w : World F S) (b : Bool)
      → rest (admitted s t tenant body b) w ≡ serve_limited s t tenant body w b
  unfolding rest admitted serve_limited parsed serve_body
  admitted-Follows tenant body w false = refl
  admitted-Follows tenant body w true = go (s.decode_request body)
    where
      go : (o : Option ChatRequest) → rest (parsed s t tenant o) w ≡ serve_body s t tenant w o
      go none = refl
      go (some req) = opened-Follows tenant req w req.stream

  admit-Follows :
      (tenant : Tenant) (body : Y) (w : World F S) (b : Bool)
      → Follows (admit s t tenant body w b) (serve_budget s t tenant body w b)
  unfolding rest admit serve_budget
  admit-Follows tenant body w true = refl
  admit-Follows tenant body w false =
      let (limiter, result) =
        allow t.created t.refilled tenant.id tenant.rate_limit_rpm w.limiter in
      admitted-Follows tenant body (record w { limiter = limiter }) result.allowed

  replayed-Follows :
      (tenant : Tenant) (req : ChatRequest) (key : String) (w : World F S) (got : Option B)
      → rest (replayed s t tenant req key got) w ≡ reply_cached s t tenant req key w got
  unfolding rest replayed reply_cached dispatch select
  replayed-Follows tenant req key w (some bytes) = refl
  replayed-Follows tenant req key w none = refl

  routed_to-Follows :
      (tenant : Tenant) (req : ChatRequest) (key : String) (w : World F S) (chosen : Option P)
      (b : Bool)
      → rest (routed_to s t tenant req key chosen b) w ≡ hand_over s t tenant req key w chosen b
  unfolding rest routed_to hand_over handle_stream
  routed_to-Follows tenant req key w none b = refl
  routed_to-Follows tenant req key w (some p) true = refl
  routed_to-Follows tenant req key w (some p) false = refl

  reported-Follows :
      (p : P) (tenant : Tenant) (key : String) (w : World F S) (o : Outcome X ChatResponse)
      → Follows (reported s t p tenant key w o) (respond s t p tenant key w o)
  unfolding rest reported respond write_log
  reported-Follows p tenant key w (err x) = refl
  reported-Follows p tenant key w (ok resp) = refl

  pick_event-Follows :
      (p : P) (req : ChatRequest) (tenant : Tenant) (es : List (StreamEvent X)) (m n : ℤ)
      (sent : List String) (w : World F S)
      → Follows
          (pick_event s t p req tenant es m n sent w)
          (stream_loop s t p req tenant es m n sent w)
  unfolding rest pick_event stream_loop write_log
  pick_event-Follows p req tenant [] m n sent w = refl
  pick_event-Follows p req tenant (closed ∷ es) m n sent w = refl
  pick_event-Follows p req tenant (chunk c ∷ es) m n sent w = refl
  pick_event-Follows p req tenant (problem none ∷ es) m n sent w = refl
  pick_event-Follows p req tenant (problem (some x) ∷ es) m n sent w = refl
  pick_event-Follows p req tenant (cancelled ∷ es) m n sent w = refl

  choose-append :
      (tenant : Tenant) (req : ChatRequest) (key : String) (ps qs rs : List P) (m : EwmaMonitor F)
      (w : World F S)
      → choose tenant req key (ps ++ qs) (m, rs) w ≡ choose tenant req key ps (m, qs ++ rs) w
  choose-append tenant req key ps qs rs m w =
      ap
        (λ l.
          hand_over s t tenant req key (record w { monitor = m })
            (best s.sort (less s.provider_name t.routed m) l) req.stream)
        (append_assoc ps qs rs)

  choosing-Follows :
      (tenant : Tenant) (req : ChatRequest) (key : String) (p : P) (ps kept : List P)
      (w : World F S)
      → Follows
          (advance s t (choosing tenant req key (p ∷ ps) kept) w)
          (rest (choosing tenant req key (p ∷ ps) kept) w)
  unfolding rest advance candidates
  choosing-Follows tenant req key p ps kept w =
      go (is_allowed (s.provider_name p) tenant.provider_allowlist)
        (is_unhealthy (get_state t.routed (s.provider_name p) w.monitor).1)
    where
      asked : EwmaMonitor F
      asked = (get_state t.routed (s.provider_name p) w.monitor).0

      go :
          (allowed down : Bool)
          → let m = if allowed then asked else w.monitor in
            let (m', found) = candidates s.provider_name t.routed tenant.provider_allowlist ps m in
            choose tenant req key
              (if allowed && not down then kept ++ (p ∷ []) else kept)
              (m', found)
              w
            ≡ choose tenant req key kept (m', if allowed && not down then p ∷ found else found) w
      go true false =
          let (m, found) = candidates s.provider_name t.routed tenant.provider_allowlist ps asked in
          choose-append tenant req key kept (p ∷ []) found m w
      go true true = refl
      go false down = refl

  advance-Follows :
      (phase : Phase F X B P Y) (w : World F S) → Follows (advance s t phase w) (rest phase w)
  unfolding advance rest serve_http serve_tenant check_cache handle_sync candidates
  advance-Follows (arrived r) w = enter-Follows r w (r.api_key == "")
  advance-Follows (unknown hash body) w = fetched-Follows hash body w (s.find_tenant hash)
  advance-Follows (loaded hash tenant body) w = refl
  advance-Follows (known tenant body) w = admit-Follows tenant body w (budget_exhausted tenant)
  advance-Follows (asking tenant req key) w =
      let (store, got) = s.cache.get t.routed key w.store in
      replayed-Follows tenant req key (record w { store = store }) (present got)
  advance-Follows (choosing tenant req key [] kept) w =
      let rank = best s.sort (less s.provider_name t.routed w.monitor) in
      routed_to-Follows tenant req key w (rank kept) req.stream
      ∙ ap (λ l. hand_over s t tenant req key w (rank l) req.stream) (sym (append-nil kept))
  advance-Follows (choosing tenant req key (p ∷ ps) kept) w =
      choosing-Follows tenant req key p ps kept w
  advance-Follows (sending p tenant req key) w = reported-Follows p tenant key w (s.chat p req)
  advance-Follows (reporting event key bytes) w = refl
  advance-Follows (broadcasting event key bytes) w = refl
  advance-Follows (saving key bytes) w = refl
  advance-Follows (streaming p req tenant es m n sent) w =
      pick_event-Follows p req tenant es m n sent w
  advance-Follows (closing event sent) w = refl
  advance-Follows (finished reply) w = refl

  -- what `n` steps leave of the handler
  pub steps-Follows :
      (n : ℕ) (phase : Phase F X B P Y) (w : World F S)
      → Follows (steps s t n phase w) (rest phase w)
  unfolding steps
  steps-Follows zero phase w = refl
  steps-Follows (suc n) phase w =
      let (w', phase') = advance s t phase w in steps-Follows n phase' w' ∙ advance-Follows phase w
