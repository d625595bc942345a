-- ===== src/Gateway/Stale.antt =====
-- internal/router/handler.go with internal/cache/memory.go: what the cache of the map behind a
-- mutex has of a tenant stays there, whatever requests come.
use kenbun.Prelude.{
  String, ◌≡◌, ◌≢◌, refl, sym, ap, ◌∙◌, Bool, true, false, Option, none, some, List, [], ◌∷◌, ◌++◌,
  ℤ, pos, ◌==◌,
}
use mathlib.Core.Option.{none-ne-some}
use kenbun.Prelude.Map.{lookup, lookup-insert_self, lookup-insert_ne, insert}
use kenbun.Float.{Float}
use kenbun.Provider.{ChatRequest, ChatResponse, Message, Outcome, ok, err}
use kenbun.Cache.{MemoryCache, memory_cache, memory_get, memory_set}
use kenbun.Exchange.{
  Tenant, StreamEvent, chunk, closed, problem, cancelled, HttpRequest, Services, Clock, World,
}
use kenbun.Gateway.{
  budget_exhausted, write_log, authenticate, read_tenant, load_tenant, handle_sync, respond,
  hand_over, reply_cached, check_cache, serve_body, serve_limited, serve_budget, serve_keyed,
  stream_loop, handle_stream, dispatch, serve_chat, serve_tenant, serve_http,
}

-- the services with the map as the cache, and a database
abbrev pub on_memory :
    {B X P Y : Type 0}
    → Services (MemoryCache B) B X P Y
    → (String → Outcome X Tenant)
    → Services (MemoryCache B) B X P Y
on_memory s database = record s { cache = memory_cache; find_tenant = database }

module _ {F : Type 0} ⦃d : Float F⦄ {B X P Y : Type 0} (s : Services (MemoryCache B) B X P Y) where
  -- requests, each with its clock and what the database says then
  unfoldable pub serve_later :
      List ((String → Outcome X Tenant) × Clock × HttpRequest Y)
      → World F (MemoryCache B)
      → World F (MemoryCache B)
  unfolding serve_http
  serve_later [] w = w
  serve_later ((database, t, r) ∷ rs) w = serve_later rs (serve_http (on_memory s database) t r w).0

  module _ (hash : String) (bytes : B)
      (apart : (id model : String) (messages : List Message)
        → s.answer_key id model messages ≢ s.tenant_key hash) where
    -- the map has the bytes under the tenant's key
    abbrev Kept : World F (MemoryCache B) → Type 0
    Kept w = lookup (s.tenant_key hash) w.store ≡ some bytes

    insert-Kept :
        (key : String) (value : B) (w : World F (MemoryCache B))
        → key ≢ s.tenant_key hash
        → Kept w
        → lookup (s.tenant_key hash) (insert key value w.store) ≡ some bytes
    insert-Kept key value w other k =
        lookup-insert_ne key (s.tenant_key hash) value w.store other ∙ k

    module _ (database : String → Outcome X Tenant) (t : Clock) where
      respond-Kept :
          (p : P) (tenant : Tenant) (key : String) (w : World F (MemoryCache B))
          (o : Outcome X ChatResponse)
          → key ≢ s.tenant_key hash
          → Kept w
          → Kept (respond (on_memory s database) t p tenant key w o).0
      unfolding respond write_log memory_set
      respond-Kept p tenant key w (err x) other k = k
      respond-Kept p tenant key w (ok resp) other k =
          insert-Kept key (s.encode_response resp) w other k

      stream_loop-Kept :
          (p : P) (req : ChatRequest) (tenant : Tenant) (es : List (StreamEvent X)) (m n : ℤ)
          (sent : List String) (w : World F (MemoryCache B))
          → Kept w
          → Kept (stream_loop (on_memory s database) t p req tenant es m n sent w).0
      unfolding stream_loop write_log
      stream_loop-Kept p req tenant [] m n sent w k = k
      stream_loop-Kept p req tenant (closed ∷ es) m n sent w k = k
      stream_loop-Kept p req tenant (chunk c ∷ es) m n sent w k =
          stream_loop-Kept p req tenant es _ _ (sent ++ (c.content ∷ [])) w k
      stream_loop-Kept p req tenant (problem none ∷ es) m n sent w k =
          stream_loop-Kept p req tenant es m n sent w k
      stream_loop-Kept p req tenant (problem (some x) ∷ es) m n sent w k = k
      stream_loop-Kept p req tenant (cancelled ∷ es) m n sent w k = k

      hand_over-Kept :
          (tenant : Tenant) (req : ChatRequest) (key : String) (w : World F (MemoryCache B))
          (chosen : Option P) (b : Bool)
          → key ≢ s.tenant_key hash
          → Kept w
          → Kept (hand_over (on_memory s database) t tenant req key w chosen b).0
      unfolding hand_over handle_sync handle_stream
      hand_over-Kept tenant req key w none b other k = k
      hand_over-Kept tenant req key w (some p) true other k =
          stream_loop-Kept p req tenant (s.chat_stream p req) (pos 0) (pos 0) [] w k
      hand_over-Kept tenant req key w (some p) false other k =
          respond-Kept p tenant key w (s.chat p req) other k

      serve_chat-Kept :
          (tenant : Tenant) (req : ChatRequest) (b : Bool) (w : World F (MemoryCache B))
          → Kept w
          → Kept (serve_chat (on_memory s database) t tenant req b w).0
      unfolding serve_chat check_cache reply_cached dispatch memory_get
      serve_chat-Kept tenant req true w k =
          hand_over-Kept tenant req _ _ _ req.stream (apart tenant.id req.model req.messages) k
      serve_chat-Kept tenant req false w k = go (lookup key w.store)
        where
          key : String
          key = s.answer_key tenant.id req.model req.messages

          go :
              (found : Option B)
              → Kept (reply_cached (on_memory s database) t tenant req key w found).0
          go (some b) = k
          go none =
              hand_over-Kept tenant req key _ _ req.stream (apart tenant.id req.model req.messages)
                k

      serve_budget-Kept :
          (tenant : Tenant) (body : Y) (w : World F (MemoryCache B)) (b : Bool)
          → Kept w
          → Kept (serve_budget (on_memory s database) t tenant body w b).0
      unfolding serve_budget serve_limited serve_body
      serve_budget-Kept tenant body w true k = k
      serve_budget-Kept tenant body w false k = go _ _ k
        where
          parsed :
              (w : World F (MemoryCache B)) (o : Option ChatRequest)
              → Kept w
              → Kept (serve_body (on_memory s database) t tenant w o).0
          parsed w none k = k
          parsed w (some req) k = serve_chat-Kept tenant req req.stream w k

          go :
              (w : World F (MemoryCache B)) (b : Bool)
              → Kept w
              → Kept (serve_limited (on_memory s database) t tenant body w b).0
          go w false k = k
          go w true k = parsed w (s.decode_request body) k

      serve_tenant-Kept :
          (body : Y) (w : World F (MemoryCache B)) (found : Outcome X (Option Tenant))
          → Kept w
          → Kept (serve_tenant (on_memory s database) t body w found).0
      unfolding serve_tenant
      serve_tenant-Kept body w (err x) k = k
      serve_tenant-Kept body w (ok none) k = k
      serve_tenant-Kept body w (ok (some tenant)) k =
          serve_budget-Kept tenant body w (budget_exhausted tenant) k

      read_tenant-Kept :
          (other : String) (w : World F (MemoryCache B)) (found : Option B)
          → lookup (s.tenant_key other) w.store ≡ found
          → Kept w
          → Kept (read_tenant (on_memory s database) t other w found).0
      unfolding read_tenant load_tenant memory_set
      read_tenant-Kept other w (some b) e k = k
      read_tenant-Kept other w none e k = go (database other)
        where
          differs : s.tenant_key other ≢ s.tenant_key hash
          differs same = none-ne-some bytes (sym e ∙ ap (λ q. lookup q w.store) same ∙ k)

          go : (o : Outcome X Tenant) → Kept (load_tenant (on_memory s database) t other w o).0
          go (err x) = k
          go (ok tenant) = insert-Kept (s.tenant_key other) (s.encode_tenant tenant) w differs k

      serve_http-Kept :
          (r : HttpRequest Y) (w : World F (MemoryCache B))
          → Kept w
          → Kept (serve_http (on_memory s database) t r w).0
      unfolding serve_http serve_keyed authenticate memory_get
      serve_http-Kept r w k = go (r.api_key == "")
        where
          go : (b : Bool) → Kept (serve_keyed (on_memory s database) t r w b).0
          go true = k
          go false =
              let other = s.key_hash r.api_key in
              let (w', found) =
                read_tenant (on_memory s database) t other w
                  (lookup (s.tenant_key other) w.store) in
              serve_tenant-Kept r.body w' found (read_tenant-Kept other w _ refl k)

    serve_later-Kept :
        (rs : List ((String → Outcome X Tenant) × Clock × HttpRequest Y))
        (w : World F (MemoryCache B))
        → Kept w
        → Kept (serve_later rs w)
    unfolding serve_later
    serve_later-Kept [] w k = k
    serve_later-Kept ((database, t, r) ∷ rs) w k =
        serve_later-Kept rs (serve_http (on_memory s database) t r w).0
          (serve_http-Kept database t r w k)

  -- With the map behind a mutex as the cache, JSON that reads a tenant back as it was written, and
  -- keys of answers that are no keys of tenants, a tenant that is read from the database once is
  -- the one that any later request with its key finds, whatever requests come between, however
  -- much time passes and whatever the database says at each of them.
  pub memory_tenant-stale :
      (t later : Clock) (hash : String) (tenant : Tenant) (before after : String → Outcome X Tenant)
      (rs : List ((String → Outcome X Tenant) × Clock × HttpRequest Y))
      (w : World F (MemoryCache B))
      → ((id model : String) (messages : List Message)
          → s.answer_key id model messages ≢ s.tenant_key hash)
      → s.decode_tenant (s.encode_tenant tenant) ≡ some tenant
      → lookup (s.tenant_key hash) w.store ≡ none
      → before hash ≡ ok tenant
      → let (w1, found) = authenticate (on_memory s before) t hash w in
        (found ≡ ok (some tenant))
        × ((authenticate (on_memory s after) later hash (serve_later rs w1)).1 ≡ ok (some tenant))
  unfolding authenticate memory_get memory_set
  memory_tenant-stale t later hash tenant before after rs w apart back new known =
      let stored = lookup-insert_self (s.tenant_key hash) (s.encode_tenant tenant) w.store in
      let first : (authenticate (on_memory s before) t hash w).0
          ≡ record w { store = insert (s.tenant_key hash) (s.encode_tenant tenant) w.store } =
        rw (new, known) refl in
      let kept =
        serve_later-Kept hash (s.encode_tenant tenant) apart rs
          (authenticate (on_memory s before) t hash w).0
          (ap (λ v. lookup (s.tenant_key hash) v.store) first ∙ stored) in
      (rw (new, known) refl, rw (kept, back) refl)
