-- ===== src/Gateway/Answers.antt =====
-- What a request that is answered went through.
use kenbun.Prelude.{String, ◌≡◌, refl, Bool, true, false, Option, none, some, List, ◌==◌}
use kenbun.Float.{Float, IsIeee}
use kenbun.Selector.Sort.{IsSort}
use kenbun.Health.Bounds.{IsValid}
use kenbun.Health.{EwmaMonitor}
use kenbun.Logging.{LogEvent}
use kenbun.Provider.{ChatRequest, Outcome, ok, err}
use kenbun.RateLimit.{TokenBucket, allow}
use kenbun.Exchange.{Tenant, answered, HttpRequest, Services, Clock, World, present}
use kenbun.Gateway.{
  budget_exhausted, authenticate, serve_body, serve_limited, serve_budget, serve_keyed, load_tenant,
  read_tenant, serve_tenant, serve_http,
}
use kenbun.Gateway.Dispatch.{IsAnswer, chatted}

module _ {F : Type 0} ⦃d : Float F⦄ {S B X P Y : Type 0} (s : Services S B X P Y) (t : Clock) where
  -- what the whole handler checked before it answered
  pub record IsServed (tenant : Tenant) (body : Y) (bytes : B) (limiter : TokenBucket F)
      (monitor : EwmaMonitor F) (log broadcast : List (LogEvent F)) (after : World F S)
      : Type 0 where
    pub within : budget_exhausted tenant ≡ false
    pub allowed :
        (allow t.created t.refilled tenant.id tenant.rate_limit_rpm limiter).1.allowed ≡ true
    pub req : ChatRequest
    pub parsed : s.decode_request body ≡ some req
    pub answer : IsAnswer s t tenant req bytes monitor log broadcast after

  -- the tenant that a request is served for
  abbrev pub ServedFor : Outcome X (Option Tenant) → Y → B → World F S → World F S → Type 0
  ServedFor found body bytes before after =
      (tenant : Tenant) × (found ≡ ok (some tenant))
      × IsServed tenant body bytes before.limiter before.monitor before.log before.broadcast after

  module _ (laws : IsIeee F) (sorted : IsSort s.sort) where
    parsed_body :
        (tenant : Tenant) (w : World F S) (o : Option ChatRequest) {bytes : B}
        → IsValid w.monitor
        → (serve_body s t tenant w o).1 ≡ answered bytes
        → (req : ChatRequest) × (o ≡ some req)
          × IsAnswer s t tenant req bytes w.monitor w.log w.broadcast (serve_body s t tenant w o).0
    unfolding serve_body
    parsed_body tenant w none v e = cc
    parsed_body tenant w (some req) v e =
        (req, refl, chatted s t laws sorted tenant req req.stream w v e)

    limited :
        (tenant : Tenant) (body : Y) (w : World F S) (b : Bool) {bytes : B}
        → IsValid w.monitor
        → (serve_limited s t tenant body w b).1 ≡ answered bytes
        → (b ≡ true)
          × ((req : ChatRequest) × (s.decode_request body ≡ some req)
              × IsAnswer s t tenant req bytes w.monitor w.log w.broadcast
                  (serve_limited s t tenant body w b).0)
    unfolding serve_limited
    limited tenant body w false v e = cc
    limited tenant body w true v e = (refl, parsed_body tenant w (s.decode_request body) v e)

    budgeted :
        (tenant : Tenant) (body : Y) (w : World F S) (b : Bool) {bytes : B}
        → IsValid w.monitor
        → budget_exhausted tenant ≡ b
        → (serve_budget s t tenant body w b).1 ≡ answered bytes
        → IsServed tenant body bytes w.limiter w.monitor w.log w.broadcast
            (serve_budget s t tenant body w b).0
    unfolding serve_budget
    budgeted tenant body w true v h e = cc
    budgeted tenant body w false v h e =
        let (limiter, result) =
          allow t.created t.refilled tenant.id tenant.rate_limit_rpm w.limiter in
        let (ok_now, (req, parsed, a)) =
          limited tenant body (record w { limiter = limiter }) result.allowed v e in
        record { within = h; allowed = ok_now; req = req; parsed = parsed; answer = a }

    tenanted :
        (body : Y) (w : World F S) (found : Outcome X (Option Tenant)) {bytes : B}
        → IsValid w.monitor
        → (serve_tenant s t body w found).1 ≡ answered bytes
        → ServedFor found body bytes w (serve_tenant s t body w found).0
    unfolding serve_tenant
    tenanted body w (err x) v e = cc
    tenanted body w (ok none) v e = cc
    tenanted body w (ok (some tenant)) v e =
        (tenant, refl, budgeted tenant body w (budget_exhausted tenant) v refl e)

    loaded :
        (body : Y) (hash : String) (w : World F S) (o : Outcome X Tenant) {bytes : B}
        → IsValid w.monitor
        → let (w', found) = load_tenant s t hash w o in
          (serve_tenant s t body w' found).1 ≡ answered bytes
          → ServedFor found body bytes w (serve_tenant s t body w' found).0
    unfolding load_tenant
    loaded body hash w (err x) v e = tenanted body w (err x) v e
    loaded body hash w (ok tenant) v e = tenanted body _ (ok (some tenant)) v e

    read :
        (body : Y) (hash : String) (w : World F S) (o : Option B) {bytes : B}
        → IsValid w.monitor
        → let (w', found) = read_tenant s t hash w o in
          (serve_tenant s t body w' found).1 ≡ answered bytes
          → ServedFor found body bytes w (serve_tenant s t body w' found).0
    unfolding read_tenant
    read body hash w (some b) v e = tenanted body w (ok (s.decode_tenant b)) v e
    read body hash w none v e = loaded body hash w (s.find_tenant hash) v e

    keyed :
        (r : HttpRequest Y) (w : World F S) (b : Bool) {bytes : B}
        → IsValid w.monitor
        → (serve_keyed s t r w b).1 ≡ answered bytes
        → ServedFor
            (authenticate s t (s.key_hash r.api_key) w).1
            r.body
            bytes
            w
            (serve_keyed s t r w b).0
    unfolding serve_keyed authenticate
    keyed r w true v e = cc
    keyed r w false v e =
        let (store, got) = s.cache.get t.started (s.tenant_key (s.key_hash r.api_key)) w.store in
        read r.body (s.key_hash r.api_key) (record w { store = store }) (present got) v e

    -- From a valid monitor, a fresh answer is given only to a tenant that the API key belongs to,
    -- whose budget is not exhausted and whom the limiter allowed the request, for a body that
    -- decodes to a request that is no stream. It is what a configured provider answered that the
    -- allowlist admits, that is not unhealthy and that no such provider outranks, and the request
    -- was logged and broadcast once, with the tenant, the provider and the cost of the answer's
    -- tokens.
    pub serve_http-answered :
        (r : HttpRequest Y) (w : World F S) {bytes : B}
        → IsValid w.monitor
        → (serve_http s t r w).1 ≡ answered bytes
        → ServedFor
            (authenticate s t (s.key_hash r.api_key) w).1
            r.body
            bytes
            w
            (serve_http s t r w).0
    unfolding serve_http
    serve_http-answered r w v e = keyed r w (r.api_key == "") v e
