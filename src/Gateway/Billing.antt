-- ===== src/Gateway/Billing.antt =====
-- internal/router/handler.go: a request adds at most one record to the log, and only one that is
-- answered or streamed does.
use mathlib.Core.List.{append_assoc, append-nil}
use kenbun.Prelude.{
  ℕ, ◌+◌, ◌≤◌, String, Bool, true, false, ◌≡◌, refl, sym, ap, ◌∙◌, ◌⊎◌, inl, inr, Option, none,
  some, List, [], ◌∷◌, ◌++◌, ◌==◌, length, ℤ, pos, if◌then◌else◌, arith,
}
use kenbun.Float.{Float}
use kenbun.Provider.{ChatRequest, ChatResponse, Outcome, ok, err}
use kenbun.Logging.{LogEvent}
use kenbun.Exchange.{
  StreamEvent, chunk, closed, problem, cancelled, Tenant, Reply, answered, streamed, HttpRequest,
  Services, Clock, World, present,
}
use kenbun.Gateway.{
  budget_exhausted, authenticate, handle_sync, respond, sync_event, stream_event, stream_loop,
  write_log, hand_over, reply_cached, check_cache, serve_body, serve_limited, serve_budget,
  serve_keyed, handle_stream, dispatch, serve_chat, serve_tenant, serve_http,
}
use kenbun.Gateway.Checks.{read_tenant-keeps}

-- the replies of a request that reached a provider
abbrev pub is_billed : {B : Type 0} → Reply B → Bool
is_billed (answered bytes) = true
is_billed (streamed sent) = true
is_billed _ = false

abbrev pub Grows : {F S B : Type 0} → World F S → World F S × Reply B → Type 0
Grows {F} w (w', reply) =
    (w'.log ≡ w.log) ⊎ ((e : LogEvent F) × (w'.log ≡ w.log ++ (e ∷ [])) × (is_billed reply ≡ true))

-- the replies that are billed
abbrev pub billed : {B : Type 0} → List (Reply B) → ℕ
billed [] = 0
billed (reply ∷ replies) = (if is_billed reply then 1 else 0) + billed replies

module _ {F : Type 0} ⦃d : Float F⦄ {S B X P Y : Type 0} (s : Services S B X P Y) (t : Clock) where
  respond-Grows :
      (p : P) (tenant : Tenant) (key : String) (w : World F S) (o : Outcome X ChatResponse)
      → Grows w (respond s t p tenant key w o)
  unfolding respond write_log
  respond-Grows p tenant key w (err x) = inl refl
  respond-Grows p tenant key w (ok resp) = inr (sync_event s t p tenant resp, refl, refl)

  stream_loop-Grows :
      (p : P) (req : ChatRequest) (tenant : Tenant) (es : List (StreamEvent X)) (m n : ℤ)
      (sent : List String) (w : World F S)
      → Grows w (stream_loop s t p req tenant es m n sent w)
  unfolding stream_loop write_log
  stream_loop-Grows p req tenant [] m n sent w = inl refl
  stream_loop-Grows p req tenant (chunk c ∷ es) m n sent w =
      stream_loop-Grows p req tenant es _ _ (sent ++ (c.content ∷ [])) w
  stream_loop-Grows p req tenant (closed ∷ es) m n sent w =
      inr (stream_event s t p req tenant m n, refl, refl)
  stream_loop-Grows p req tenant (problem none ∷ es) m n sent w =
      stream_loop-Grows p req tenant es m n sent w
  stream_loop-Grows p req tenant (problem (some x) ∷ es) m n sent w = inl refl
  stream_loop-Grows p req tenant (cancelled ∷ es) m n sent w = inl refl

  hand_over-Grows :
      (tenant : Tenant) (req : ChatRequest) (key : String) (w : World F S) (chosen : Option P)
      (b : Bool)
      → Grows w (hand_over s t tenant req key w chosen b)
  unfolding hand_over handle_sync handle_stream
  hand_over-Grows tenant req key w none b = inl refl
  hand_over-Grows tenant req key w (some p) true =
      stream_loop-Grows p req tenant (s.chat_stream p req) (pos 0) (pos 0) [] w
  hand_over-Grows tenant req key w (some p) false = respond-Grows p tenant key w (s.chat p req)

  reply_cached-Grows :
      (tenant : Tenant) (req : ChatRequest) (key : String) (w : World F S) (found : Option B)
      → Grows w (reply_cached s t tenant req key w found)
  unfolding reply_cached dispatch
  reply_cached-Grows tenant req key w (some bytes) = inl refl
  reply_cached-Grows tenant req key w none = hand_over-Grows tenant req key _ _ req.stream

  serve_chat-Grows :
      (tenant : Tenant) (req : ChatRequest) (b : Bool) (w : World F S)
      → Grows w (serve_chat s t tenant req b w)
  unfolding serve_chat dispatch check_cache
  serve_chat-Grows tenant req true w = hand_over-Grows tenant req _ _ _ req.stream
  serve_chat-Grows tenant req false w = reply_cached-Grows tenant req _ _ _

  serve_body-Grows :
      (tenant : Tenant) (w : World F S) (o : Option ChatRequest)
      → Grows w (serve_body s t tenant w o)
  unfolding serve_body
  serve_body-Grows tenant w none = inl refl
  serve_body-Grows tenant w (some req) = serve_chat-Grows tenant req req.stream w

  serve_limited-Grows :
      (tenant : Tenant) (body : Y) (w : World F S) (b : Bool)
      → Grows w (serve_limited s t tenant body w b)
  unfolding serve_limited
  serve_limited-Grows tenant body w false = inl refl
  serve_limited-Grows tenant body w true = serve_body-Grows tenant w (s.decode_request body)

  serve_budget-Grows :
      (tenant : Tenant) (body : Y) (w : World F S) (b : Bool)
      → Grows w (serve_budget s t tenant body w b)
  unfolding serve_budget
  serve_budget-Grows tenant body w true = inl refl
  serve_budget-Grows tenant body w false = serve_limited-Grows tenant body _ _

  serve_tenant-Grows :
      (body : Y) (w : World F S) (found : Outcome X (Option Tenant))
      → Grows w (serve_tenant s t body w found)
  unfolding serve_tenant
  serve_tenant-Grows body w (err x) = inl refl
  serve_tenant-Grows body w (ok none) = inl refl
  serve_tenant-Grows body w (ok (some tenant)) =
      serve_budget-Grows tenant body w (budget_exhausted tenant)

  Grows-before :
      (w w' : World F S) (r : World F S × Reply B) → w'.log ≡ w.log → Grows w' r → Grows w r
  Grows-before w w' r same (inl e) = inl (e ∙ same)
  Grows-before w w' r same (inr (event, e, b)) =
      inr (event, e ∙ ap (λ l. l ++ (event ∷ [])) same, b)

  -- A request adds nothing to the log, or one record, and then its reply is an answer or a stream.
  pub serve_http-Grows : (r : HttpRequest Y) (w : World F S) → Grows w (serve_http s t r w)
  unfolding serve_http serve_keyed authenticate
  serve_http-Grows r w = go (r.api_key == "")
    where
      go : (b : Bool) → Grows w (serve_keyed s t r w b)
      go true = inl refl
      go false =
          let (w', found) = authenticate s t (s.key_hash r.api_key) w in
          let hash = s.key_hash r.api_key in
          let (store, got) = s.cache.get t.started (s.tenant_key hash) w.store in
          let (l, m, (log, sent)) =
            read_tenant-keeps s t hash (record w { store = store }) (present got) in
          Grows-before w w' (serve_tenant s t r.body w' found) log
            (serve_tenant-Grows r.body w' found)

module _ {F : Type 0} ⦃d : Float F⦄ {S B X P Y : Type 0} (s : Services S B X P Y) where
  -- Requests one after the other, each with its readings of the clock.
  unfoldable pub serve_all : List (Clock × HttpRequest Y) → World F S → World F S × List (Reply B)
  unfolding serve_http
  serve_all [] w = (w, [])
  serve_all ((t, r) ∷ requests) w =
      let (w', reply) = serve_http s t r w in
      let (w2, replies) = serve_all requests w' in (w2, reply ∷ replies)

  -- Requests add to the log no more records than replies that are answers or streams.
  pub serve_all-billed :
      (requests : List (Clock × HttpRequest Y)) (w : World F S)
      → let (w', replies) = serve_all requests w in
        (es : List (LogEvent F)) × (w'.log ≡ w.log ++ es) × (length es ≤ billed replies)
  unfolding serve_all
  serve_all-billed [] w = ([], sym (append-nil w.log), omega arith)
  serve_all-billed ((t, r) ∷ requests) w =
      let (w', reply) = serve_http s t r w in
      let (es, log, few) = serve_all-billed requests w' in
      elim (serve_http-Grows s t r w) [
        | inl same ↦ (es, log ∙ ap (λ l. l ++ es) same, omega (arith, few))
        | inr (e, more, is) ↦ (
          e ∷ es,
          log ∙ ap (λ l. l ++ es) more ∙ append_assoc w.log (e ∷ []) es,
          rw is (omega (arith, few)),
        )
      ]
