-- ===== src/Concurrent/Counts.antt =====
-- internal/router/handler.go: which phases have a record in the log, and which steps do not make
-- one.
use kenbun.Prelude.{
  ℕ, ◌+◌, String, ◌≡◌, refl, Bool, true, false, Option, none, some, List, [], ◌∷◌, map, arith,
}
use kenbun.Float.{Float}
use kenbun.Provider.{ChatRequest, ChatResponse, Outcome, ok, err}
use kenbun.Exchange.{Clock, HttpRequest, answered, streamed, Services, Tenant, World, present}
use kenbun.RateLimit.{TokenBucket, allow}
use kenbun.Concurrent.{
  Phase, Task, arrive, arrived, broadcasting, saving, closing, finished, identified, looked_up,
  fetched, opened, parsed, admitted, replayed, routed_to, enter, admit, reported,
}

module _ {F X B P Y : Type 0} where
  -- the records that a request has surely added to the log: one, if it was answered
  abbrev pub recorded : Phase F X B P Y → ℕ
  recorded (broadcasting event key bytes) = 1
  recorded (saving key bytes) = 1
  recorded (closing event sent) = 1
  recorded (finished (answered bytes)) = 1
  recorded _ = 0

  -- the records that it can have added: one, if it was answered or streamed
  abbrev pub recordable : Phase F X B P Y → ℕ
  recordable (broadcasting event key bytes) = 1
  recordable (saving key bytes) = 1
  recordable (closing event sent) = 1
  recordable (finished (answered bytes)) = 1
  recordable (finished (streamed sent)) = 1
  recordable _ = 0

  -- of all requests
  abbrev pub total : (Phase F X B P Y → ℕ) → List (Task F X B P Y) → ℕ
  total count [] = 0
  total count (k ∷ ks) = count k.phase + total count ks

  pub total-arrive :
      (count : Phase F X B P Y → ℕ)
      → ((r : HttpRequest Y) → count (arrived r) ≡ 0)
      → (rs : List (Clock × HttpRequest Y)) → total count (map arrive rs) ≡ 0
  total-arrive count h [] = refl
  total-arrive count h ((t, r) ∷ rs) = omega (arith, h r, total-arrive count h rs)

module _ {F : Type 0} ⦃d : Float F⦄ {S B X P Y : Type 0} (s : Services S B X P Y) (t : Clock) where
  -- a step to a phase without a record
  abbrev pub Plain : World F S → World F S × Phase F X B P Y → Type 0
  Plain w (w', phase) = (w'.log ≡ w.log) × (recorded phase ≡ 0) × (recordable phase ≡ 0)

  identified-Plain :
      (body : Y) (w : World F S) (found : Option Tenant) → Plain w (w, identified s t body found)
  unfolding identified
  identified-Plain body w none = (refl, refl, refl)
  identified-Plain body w (some tenant) = (refl, refl, refl)

  pub enter-Plain : (r : HttpRequest Y) (w : World F S) (b : Bool) → Plain w (enter s t r w b)
  unfolding enter looked_up
  enter-Plain r w true = (refl, refl, refl)
  enter-Plain r w false =
      let (store, got) = s.cache.get t.started (s.tenant_key (s.key_hash r.api_key)) w.store in
      go store (present got)
    where
      go :
          (store : S) (got : Option B)
          → Plain w (record w { store = store }, looked_up s t (s.key_hash r.api_key) r.body got)
      go store (some bytes) =
          identified-Plain r.body (record w { store = store }) (s.decode_tenant bytes)
      go store none = (refl, refl, refl)

  pub fetched-Plain :
      (hash : String) (body : Y) (w : World F S) (o : Outcome X Tenant)
      → Plain w (w, fetched s t hash body o)
  unfolding fetched
  fetched-Plain hash body w (err x) = (refl, refl, refl)
  fetched-Plain hash body w (ok tenant) = (refl, refl, refl)

  pub admit-Plain :
      (tenant : Tenant) (body : Y) (w : World F S) (b : Bool) → Plain w (admit s t tenant body w b)
  unfolding admit admitted parsed opened
  admit-Plain tenant body w true = (refl, refl, refl)
  admit-Plain tenant body w false =
      let (limiter, result) =
        allow t.created t.refilled tenant.id tenant.rate_limit_rpm w.limiter in
      pass limiter result.allowed
    where
      open_chat :
          (w' : World F S) (req : ChatRequest) (b : Bool)
          → w'.log ≡ w.log
          → Plain w (w', opened s t tenant req b)
      open_chat w' req true e = (e, refl, refl)
      open_chat w' req false e = (e, refl, refl)

      read :
          (w' : World F S) (o : Option ChatRequest)
          → w'.log ≡ w.log
          → Plain w (w', parsed s t tenant o)
      read w' none e = (e, refl, refl)
      read w' (some req) e = open_chat w' req req.stream e

      pass :
          (limiter : TokenBucket F) (b : Bool)
          → Plain w (record w { limiter = limiter }, admitted s t tenant body b)
      pass limiter false = (refl, refl, refl)
      pass limiter true = read (record w { limiter = limiter }) (s.decode_request body) refl

  pub replayed-Plain :
      (tenant : Tenant) (req : ChatRequest) (key : String) (w : World F S) (store : S)
      (got : Option B)
      → Plain w (record w { store = store }, replayed s t tenant req key got)
  unfolding replayed
  replayed-Plain tenant req key w store (some bytes) = (refl, refl, refl)
  replayed-Plain tenant req key w store none = (refl, refl, refl)

  pub routed_to-Plain :
      (tenant : Tenant) (req : ChatRequest) (key : String) (w : World F S) (chosen : Option P)
      (b : Bool)
      → Plain w (w, routed_to s t tenant req key chosen b)
  unfolding routed_to
  routed_to-Plain tenant req key w none b = (refl, refl, refl)
  routed_to-Plain tenant req key w (some p) true = (refl, refl, refl)
  routed_to-Plain tenant req key w (some p) false = (refl, refl, refl)

  pub reported-Plain :
      (p : P) (tenant : Tenant) (key : String) (w : World F S) (o : Outcome X ChatResponse)
      → Plain w (reported s t p tenant key w o)
  unfolding reported
  reported-Plain p tenant key w (err x) = (refl, refl, refl)
  reported-Plain p tenant key w (ok resp) = (refl, refl, refl)
