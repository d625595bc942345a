-- ===== src/Gateway/Checks.antt =====
-- What a request that is refused, or answered from the cache, leaves as it was.
use kenbun.Prelude.{
  String, leb, ◌&&◌, ◌≡◌, refl, ◌∙◌, Bool, true, false, Option, none, some, [], pos, ◌==◌,
}
use kenbun.Float.{Float}
use kenbun.Provider.{ChatRequest, ChatResponse, Outcome, ok, err}
use kenbun.Exchange.{
  Tenant, Reply, refused, hit, answered, streamed, waiting, aborted, HttpRequest, Services, Clock,
  World, present,
}
use kenbun.Gateway.{
  budget_exhausted, authenticate, handle_sync, respond, hand_over, reply_cached, check_cache,
  serve_body, serve_limited, serve_budget, serve_keyed, load_tenant, read_tenant, handle_stream,
  dispatch, serve_chat, serve_tenant, serve_http,
}
use kenbun.Gateway.Dispatch.{IsShown, stream_loop-streamed}

-- the reply of a stream, and the other replies that write nothing to the log
abbrev pub Unbilled : {B : Type 0} → Reply B → Type 0
Unbilled (refused code message) = Unit
Unbilled (hit bytes) = Unit
Unbilled (answered bytes) = ⊥
Unbilled (streamed sent) = ⊥
Unbilled (waiting sent) = ⊥
Unbilled aborted = Unit

-- the codes of a bad key and of an exhausted budget, 401 and 402
abbrev pub is_early : {B : Type 0} → Reply B → Bool
is_early (refused code message) = leb 401 code && leb code 402
is_early _ = false

shown-billed : {B : Type 0} (reply : Reply B) → IsShown reply → ¬ Unbilled reply
shown-billed (streamed sent) h = λ u. u
shown-billed (waiting sent) h = λ u. u
shown-billed (refused code message) h = absurd h
shown-billed (hit bytes) h = absurd h
shown-billed (answered bytes) h = absurd h
shown-billed aborted h = absurd h

shown-late : {B : Type 0} (reply : Reply B) → IsShown reply → is_early reply ≡ false
shown-late (streamed sent) h = refl
shown-late (waiting sent) h = refl
shown-late (refused code message) h = absurd h
shown-late (hit bytes) h = absurd h
shown-late (answered bytes) h = absurd h
shown-late aborted h = absurd h

apart : {b : Bool} → b ≡ true → b ≡ false → ⊥
apart e f = cc

module _ {F S : Type 0} where
  -- nothing was logged or broadcast
  abbrev pub SameLogs : World F S → World F S → Type 0
  SameLogs before after = (after.log ≡ before.log) × (after.broadcast ≡ before.broadcast)

  -- the limiter and the monitor are as they were
  abbrev pub SameGuards : World F S → World F S → Type 0
  SameGuards before after = (after.limiter ≡ before.limiter) × (after.monitor ≡ before.monitor)

module _ {F : Type 0} ⦃d : Float F⦄ {S B X P Y : Type 0} (s : Services S B X P Y) (t : Clock) where
  respond-silent :
      (p : P) (tenant : Tenant) (key : String) (w : World F S) (o : Outcome X ChatResponse)
      → Unbilled (respond s t p tenant key w o).1
      → SameLogs w (respond s t p tenant key w o).0
  unfolding respond
  respond-silent p tenant key w (err x) u = (refl, refl)
  respond-silent p tenant key w (ok resp) u = absurd u

  hand_over-silent :
      (tenant : Tenant) (req : ChatRequest) (key : String) (w : World F S) (chosen : Option P)
      (b : Bool)
      → Unbilled (hand_over s t tenant req key w chosen b).1
      → SameLogs w (hand_over s t tenant req key w chosen b).0
  unfolding hand_over handle_sync handle_stream
  hand_over-silent tenant req key w none b u = (refl, refl)
  hand_over-silent tenant req key w (some p) true u = absurd (
      shown-billed _
        (stream_loop-streamed s t p req tenant (s.chat_stream p req) (pos 0) (pos 0) [] w) u)
  hand_over-silent tenant req key w (some p) false u =
      respond-silent p tenant key w (s.chat p req) u

  reply_cached-silent :
      (tenant : Tenant) (req : ChatRequest) (key : String) (w : World F S) (found : Option B)
      → Unbilled (reply_cached s t tenant req key w found).1
      → SameLogs w (reply_cached s t tenant req key w found).0
  unfolding reply_cached dispatch
  reply_cached-silent tenant req key w (some bytes) u = (refl, refl)
  reply_cached-silent tenant req key w none u = hand_over-silent tenant req key _ _ req.stream u

  serve_chat-silent :
      (tenant : Tenant) (req : ChatRequest) (b : Bool) (w : World F S)
      → Unbilled (serve_chat s t tenant req b w).1
      → SameLogs w (serve_chat s t tenant req b w).0
  unfolding serve_chat dispatch check_cache
  serve_chat-silent tenant req true w u = hand_over-silent tenant req _ _ _ req.stream u
  serve_chat-silent tenant req false w u = reply_cached-silent tenant req _ _ _ u

  serve_limited-silent :
      (tenant : Tenant) (body : Y) (w : World F S) (b : Bool)
      → Unbilled (serve_limited s t tenant body w b).1
      → SameLogs w (serve_limited s t tenant body w b).0
  unfolding serve_limited
  serve_limited-silent tenant body w false u = (refl, refl)
  serve_limited-silent tenant body w true u = go (s.decode_request body) u
    where
      go :
          (o : Option ChatRequest)
          → Unbilled (serve_body s t tenant w o).1
          → SameLogs w (serve_body s t tenant w o).0
      go none u = (refl, refl)
      go (some req) u = serve_chat-silent tenant req req.stream w u

  serve_budget-silent :
      (tenant : Tenant) (body : Y) (w : World F S) (b : Bool)
      → Unbilled (serve_budget s t tenant body w b).1
      → SameLogs w (serve_budget s t tenant body w b).0
  unfolding serve_budget
  serve_budget-silent tenant body w true u = (refl, refl)
  serve_budget-silent tenant body w false u = serve_limited-silent tenant body _ _ u

  serve_tenant-silent :
      (body : Y) (w : World F S) (found : Outcome X (Option Tenant))
      → Unbilled (serve_tenant s t body w found).1
      → SameLogs w (serve_tenant s t body w found).0
  unfolding serve_tenant
  serve_tenant-silent body w (err x) u = (refl, refl)
  serve_tenant-silent body w (ok none) u = (refl, refl)
  serve_tenant-silent body w (ok (some tenant)) u =
      serve_budget-silent tenant body w (budget_exhausted tenant) u

  pub read_tenant-keeps :
      (hash : String) (w : World F S) (o : Option B)
      → let w' = (read_tenant s t hash w o).0 in
        (w'.limiter ≡ w.limiter) × (w'.monitor ≡ w.monitor) × SameLogs w w'
  unfolding read_tenant
  read_tenant-keeps hash w (some bytes) = (refl, refl, (refl, refl))
  read_tenant-keeps hash w none = go (s.find_tenant hash)
    where
      go :
          (o : Outcome X Tenant)
          → let w' = (load_tenant s t hash w o).0 in
            (w'.limiter ≡ w.limiter) × (w'.monitor ≡ w.monitor) × SameLogs w w'
      go (err x) = (refl, refl, (refl, refl))
      go (ok tenant) = (refl, refl, (refl, refl))

  -- A request whose reply is an error, a cached body or an abort is neither logged nor broadcast,
  -- so it is never charged.
  pub serve_http-Unbilled :
      (r : HttpRequest Y) (w : World F S)
      → Unbilled (serve_http s t r w).1
      → SameLogs w (serve_http s t r w).0
  unfolding serve_http serve_keyed authenticate
  serve_http-Unbilled r w u = go (r.api_key == "") u
    where
      go : (b : Bool) → Unbilled (serve_keyed s t r w b).1 → SameLogs w (serve_keyed s t r w b).0
      go true u = (refl, refl)
      go false u =
          let (w', found) = authenticate s t (s.key_hash r.api_key) w in
          let hash = s.key_hash r.api_key in
          let (store, got) = s.cache.get t.started (s.tenant_key hash) w.store in
          let (l, m, (log, sent)) =
            read_tenant-keeps hash (record w { store = store }) (present got) in
          let (log', sent') = serve_tenant-silent r.body w' found u in (log' ∙ log, sent' ∙ sent)

  respond-late :
      (p : P) (tenant : Tenant) (key : String) (w : World F S) (o : Outcome X ChatResponse)
      → is_early (respond s t p tenant key w o).1 ≡ false
  unfolding respond
  respond-late p tenant key w (err x) = refl
  respond-late p tenant key w (ok resp) = refl

  hand_over-late :
      (tenant : Tenant) (req : ChatRequest) (key : String) (w : World F S) (chosen : Option P)
      (b : Bool)
      → is_early (hand_over s t tenant req key w chosen b).1 ≡ false
  unfolding hand_over handle_sync handle_stream
  hand_over-late tenant req key w none b = refl
  hand_over-late tenant req key w (some p) true =
      shown-late _
        (stream_loop-streamed s t p req tenant (s.chat_stream p req) (pos 0) (pos 0) [] w)
  hand_over-late tenant req key w (some p) false = respond-late p tenant key w (s.chat p req)

  serve_chat-late :
      (tenant : Tenant) (req : ChatRequest) (b : Bool) (w : World F S)
      → is_early (serve_chat s t tenant req b w).1 ≡ false
  unfolding serve_chat dispatch check_cache
  serve_chat-late tenant req true w = hand_over-late tenant req _ _ _ req.stream
  serve_chat-late tenant req false w = go _ _ _
    where
      go :
          (key : String) (w : World F S) (found : Option B)
          → is_early (reply_cached s t tenant req key w found).1 ≡ false
      go key w (some bytes) = refl
      go key w none = hand_over-late tenant req key _ _ req.stream

  serve_limited-late :
      (tenant : Tenant) (body : Y) (w : World F S) (b : Bool)
      → is_early (serve_limited s t tenant body w b).1 ≡ false
  unfolding serve_limited
  serve_limited-late tenant body w false = refl
  serve_limited-late tenant body w true = go (s.decode_request body)
    where
      go : (o : Option ChatRequest) → is_early (serve_body s t tenant w o).1 ≡ false
      go none = refl
      go (some req) = serve_chat-late tenant req req.stream w

  serve_budget-early :
      (tenant : Tenant) (body : Y) (w : World F S) (b : Bool)
      → is_early (serve_budget s t tenant body w b).1 ≡ true
      → SameGuards w (serve_budget s t tenant body w b).0
  unfolding serve_budget
  serve_budget-early tenant body w true e = (refl, refl)
  serve_budget-early tenant body w false e = absurd (apart e (serve_limited-late tenant body _ _))

  serve_tenant-early :
      (body : Y) (w : World F S) (found : Outcome X (Option Tenant))
      → is_early (serve_tenant s t body w found).1 ≡ true
      → SameGuards w (serve_tenant s t body w found).0
  unfolding serve_tenant
  serve_tenant-early body w (err x) e = (refl, refl)
  serve_tenant-early body w (ok none) e = (refl, refl)
  serve_tenant-early body w (ok (some tenant)) e =
      serve_budget-early tenant body w (budget_exhausted tenant) e

  -- A request that is refused for its API key (401) or for an exhausted budget (402) takes no token
  -- from the limiter and leaves the monitor as it was.
  pub serve_http-refused_early :
      (r : HttpRequest Y) (w : World F S)
      → is_early (serve_http s t r w).1 ≡ true
      → SameGuards w (serve_http s t r w).0
  unfolding serve_http serve_keyed authenticate
  serve_http-refused_early r w e = go (r.api_key == "") e
    where
      go :
          (b : Bool)
          → is_early (serve_keyed s t r w b).1 ≡ true
          → SameGuards w (serve_keyed s t r w b).0
      go true e = (refl, refl)
      go false e =
          let (w', found) = authenticate s t (s.key_hash r.api_key) w in
          let hash = s.key_hash r.api_key in
          let (store, got) = s.cache.get t.started (s.tenant_key hash) w.store in
          let (l, m, logs) = read_tenant-keeps hash (record w { store = store }) (present got) in
          let (l', m') = serve_tenant-early r.body w' found e in (l' ∙ l, m' ∙ m)
