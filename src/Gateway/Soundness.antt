-- ===== src/Gateway/Soundness.antt =====
-- Requests keep the numbers of the monitor in their ranges.
use kenbun.Prelude.{
  ℕ, if◌then◌else◌, String, sym, Bool, true, false, Option, none, some, List, [], ◌∷◌, ℤ, pos, ◌-◌,
  ◌==◌,
}
use kenbun.Float.{Float, IsIeee}
use kenbun.Selector.{select}
use kenbun.Health.Bounds.{IsValid}
use kenbun.Health.{EwmaMonitor}
use kenbun.Provider.{ChatRequest, ChatResponse, Outcome, ok, err}
use kenbun.Exchange.{
  Tenant, StreamEvent, chunk, closed, problem, cancelled, HttpRequest, Services, Clock, World,
  present,
}
use kenbun.Gateway.{
  budget_exhausted, write_log, authenticate, handle_sync, respond, hand_over, reply_cached,
  check_cache, serve_body, serve_limited, serve_budget, serve_keyed, read_tenant, stream_loop,
  handle_stream, dispatch, serve_chat, serve_tenant, serve_http,
}
use kenbun.Gateway.Checks.{read_tenant-keeps}
use kenbun.Health.Bounds.{call-IsValid}
use kenbun.Health.{success, error, query, get_state, call}
use kenbun.Selector.{candidates, is_allowed}
use mathlib.Core.Path.{subst}

module _ {F : Type 0} ⦃d : Float F⦄ (laws : IsIeee F) where
  candidates-IsValid :
      {P : Type 0} (name : P → String) (now : ℕ) (allowlist : List String) (ps : List P)
      (m : EwmaMonitor F)
      → IsValid m
      → IsValid (candidates name now allowlist ps m).0
  unfolding candidates call
  candidates-IsValid name now allowlist [] m v = v
  candidates-IsValid {P} name now allowlist (p ∷ ps) m v =
      candidates-IsValid name now allowlist ps _ (asked (is_allowed (name p) allowlist))
    where
      asked : (b : Bool) → IsValid (if b then (get_state now (name p) m).0 else m)
      asked true = call-IsValid laws now (query (name p)) m v
      asked false = v

  module _ {S B X P Y : Type 0} (s : Services S B X P Y) (t : Clock) where
    respond-IsValid :
        (p : P) (tenant : Tenant) (key : String) (w : World F S) (o : Outcome X ChatResponse)
        → IsValid w.monitor
        → IsValid (respond s t p tenant key w o).0.monitor
    unfolding respond write_log call
    respond-IsValid p tenant key w (err x) v =
        call-IsValid laws t.replied (error (s.provider_name p) (pos 500)) w.monitor v
    respond-IsValid p tenant key w (ok resp) v =
        call-IsValid laws t.replied (success (s.provider_name p) (t.replied - t.started)) w.monitor
          v

    stream_loop-IsValid :
        (p : P) (req : ChatRequest) (tenant : Tenant) (es : List (StreamEvent X)) (m n : ℤ)
        (sent : List String) (w : World F S)
        → IsValid w.monitor
        → IsValid (stream_loop s t p req tenant es m n sent w).0.monitor
    unfolding stream_loop write_log call
    stream_loop-IsValid p req tenant [] m n sent w v = v
    stream_loop-IsValid p req tenant (closed ∷ es) m n sent w v = v
    stream_loop-IsValid p req tenant (chunk c ∷ es) m n sent w v =
        stream_loop-IsValid p req tenant es _ _ _ w v
    stream_loop-IsValid p req tenant (problem none ∷ es) m n sent w v =
        stream_loop-IsValid p req tenant es m n sent w v
    stream_loop-IsValid p req tenant (problem (some x) ∷ es) m n sent w v =
        call-IsValid laws t.replied (error (s.provider_name p) (pos 502)) w.monitor v
    stream_loop-IsValid p req tenant (cancelled ∷ es) m n sent w v = v

    hand_over-IsValid :
        (tenant : Tenant) (req : ChatRequest) (key : String) (w : World F S) (chosen : Option P)
        (b : Bool)
        → IsValid w.monitor
        → IsValid (hand_over s t tenant req key w chosen b).0.monitor
    unfolding hand_over handle_sync handle_stream
    hand_over-IsValid tenant req key w none b v = v
    hand_over-IsValid tenant req key w (some p) true v =
        stream_loop-IsValid p req tenant (s.chat_stream p req) (pos 0) (pos 0) [] w v
    hand_over-IsValid tenant req key w (some p) false v =
        respond-IsValid p tenant key w (s.chat p req) v

    dispatch-IsValid :
        (tenant : Tenant) (req : ChatRequest) (key : String) (w : World F S)
        → IsValid w.monitor
        → IsValid (dispatch s t tenant req key w).0.monitor
    unfolding dispatch select
    dispatch-IsValid tenant req key w v = hand_over-IsValid tenant req key _ _ req.stream (
        candidates-IsValid s.provider_name t.routed tenant.provider_allowlist s.providers w.monitor
          v)

    serve_chat-IsValid :
        (tenant : Tenant) (req : ChatRequest) (b : Bool) (w : World F S)
        → IsValid w.monitor
        → IsValid (serve_chat s t tenant req b w).0.monitor
    unfolding serve_chat check_cache
    serve_chat-IsValid tenant req true w v = dispatch-IsValid tenant req _ w v
    serve_chat-IsValid tenant req false w v = go _ _ _ v
      where
        go :
            (key : String) (w : World F S) (found : Option B)
            → IsValid w.monitor
            → IsValid (reply_cached s t tenant req key w found).0.monitor
        go key w (some bytes) v = v
        go key w none v = dispatch-IsValid tenant req key w v

    serve_budget-IsValid :
        (tenant : Tenant) (body : Y) (w : World F S) (b : Bool)
        → IsValid w.monitor
        → IsValid (serve_budget s t tenant body w b).0.monitor
    unfolding serve_budget
    serve_budget-IsValid tenant body w true v = v
    serve_budget-IsValid tenant body w false v = go _ _ v
      where
        parsed :
            (w : World F S) (o : Option ChatRequest)
            → IsValid w.monitor
            → IsValid (serve_body s t tenant w o).0.monitor
        parsed w none v = v
        parsed w (some req) v = serve_chat-IsValid tenant req req.stream w v

        go :
            (w : World F S) (b : Bool)
            → IsValid w.monitor
            → IsValid (serve_limited s t tenant body w b).0.monitor
        go w false v = v
        go w true v = parsed w (s.decode_request body) v

    serve_tenant-IsValid :
        (body : Y) (w : World F S) (found : Outcome X (Option Tenant))
        → IsValid w.monitor
        → IsValid (serve_tenant s t body w found).0.monitor
    unfolding serve_tenant
    serve_tenant-IsValid body w (err x) v = v
    serve_tenant-IsValid body w (ok none) v = v
    serve_tenant-IsValid body w (ok (some tenant)) v =
        serve_budget-IsValid tenant body w (budget_exhausted tenant) v

    -- Every request, whatever its reply, keeps the error rate of every provider in [0, 1], its
    -- latency a number that is not negative, and its smoothing factor.
    pub serve_http-IsValid :
        (r : HttpRequest Y) (w : World F S)
        → IsValid w.monitor
        → IsValid (serve_http s t r w).0.monitor
    unfolding serve_http serve_keyed authenticate
    serve_http-IsValid r w v = go (r.api_key == "")
      where
        go : (b : Bool) → IsValid (serve_keyed s t r w b).0.monitor
        go true = v
        go false =
            let hash = s.key_hash r.api_key in
            let (store, got) = s.cache.get t.started (s.tenant_key hash) w.store in
            let (w', found) = read_tenant s t hash (record w { store = store }) (present got) in
            let (l, m, logs) =
              read_tenant-keeps s t hash (record w { store = store }) (present got) in
            serve_tenant-IsValid r.body w' found (subst IsValid (sym m) v)
