-- ===== src/Gateway/Replay.antt =====
-- Asking again: an answer that was cached is given out again, without a provider.
use mathlib.Core.Path.{subst}
use kenbun.Prelude.{ℕ, String, ◌≡◌, ap, ◌∙◌, Bool, true, false, Option, none, some, [], pos}
use kenbun.Float.{Float}
use kenbun.Provider.{ChatRequest, ChatResponse, Outcome, ok, err}
use kenbun.Exchange.{Tenant, hit, answered, Services, Clock, World, present}
use kenbun.Gateway.{
  write_log, handle_sync, respond, hand_over, reply_cached, check_cache, handle_stream, dispatch,
  serve_chat,
}
use kenbun.Exchange.{minutes}
use kenbun.Cache.{Cache, memory_cache, memory_get, memory_set}
use kenbun.Prelude.Map.{lookup-insert_self}
use kenbun.Gateway.Dispatch.{IsShown, stream_loop-streamed}

-- A cache that finds what was set last, at any later time: the time to live has not run out and
-- nothing was evicted.
abbrev pub Remembers : {S B X : Type 0} → Cache S B X → Type 0
Remembers {S} {B} c =
    (now later : ℕ) (key : String) (value : B) (ttl : ℕ) (store : S)
    → (c.get later key (c.set now key value ttl store).0).1 ≡ ok (some value)

-- The map behind a mutex finds under a key what was set there last.
pub memory_cache-Remembers : {B X : Type 0} → Remembers (memory_cache {B = B} {X = X})
unfolding memory_get memory_set
memory_cache-Remembers now later key value ttl store =
    ap (λ o. ok o) (lookup-insert_self key value store)

module _ {F : Type 0} ⦃d : Float F⦄ {S B X P Y : Type 0} (s : Services S B X P Y) (t : Clock) where
  -- the answer's bytes were set last
  Saved : String → B → World F S → Type 0
  Saved key bytes after =
      (store : S) × (after.store ≡ (s.cache.set t.logged key bytes (minutes 60) store).0)

  respond-Saved :
      (p : P) (tenant : Tenant) (key : String) (w : World F S) (o : Outcome X ChatResponse)
      {bytes : B}
      → (respond s t p tenant key w o).1 ≡ answered bytes
      → Saved key bytes (respond s t p tenant key w o).0
  unfolding respond write_log Saved
  respond-Saved p tenant key w (err x) e = cc
  respond-Saved p tenant key w (ok resp) {bytes} e =
      let same : s.encode_response resp ≡ bytes = cc in
      (w.store, ap (λ b. (s.cache.set t.logged key b (minutes 60) w.store).0) same)

  hand_over-Saved :
      (tenant : Tenant) (req : ChatRequest) (key : String) (w : World F S) (chosen : Option P)
      (b : Bool) {bytes : B}
      → (hand_over s t tenant req key w chosen b).1 ≡ answered bytes
      → Saved key bytes (hand_over s t tenant req key w chosen b).0
  unfolding hand_over handle_sync handle_stream
  hand_over-Saved tenant req key w none b e = cc
  hand_over-Saved tenant req key w (some p) true e = absurd (
      subst IsShown e
        (stream_loop-streamed s t p req tenant (s.chat_stream p req) (pos 0) (pos 0) [] w))
  hand_over-Saved tenant req key w (some p) false e = respond-Saved p tenant key w (s.chat p req) e

  reply_cached-Saved :
      (tenant : Tenant) (req : ChatRequest) (key : String) (w : World F S) (found : Option B)
      {bytes : B}
      → (reply_cached s t tenant req key w found).1 ≡ answered bytes
      → Saved key bytes (reply_cached s t tenant req key w found).0
  unfolding reply_cached dispatch
  reply_cached-Saved tenant req key w (some b) e = cc
  reply_cached-Saved tenant req key w none e = hand_over-Saved tenant req key _ _ req.stream e

  serve_chat-Saved :
      (tenant : Tenant) (req : ChatRequest) (b : Bool) (w : World F S) {bytes : B}
      → (serve_chat s t tenant req b w).1 ≡ answered bytes
      → Saved
          (s.answer_key tenant.id req.model req.messages)
          bytes
          (serve_chat s t tenant req b w).0
  unfolding serve_chat dispatch check_cache
  serve_chat-Saved tenant req true w e = hand_over-Saved tenant req _ _ _ req.stream e
  serve_chat-Saved tenant req false w e = reply_cached-Saved tenant req _ _ _ e

  hit_found :
      (tenant : Tenant) (req : ChatRequest) (key : String) (w : World F S)
      (o : Outcome X (Option B)) {bytes : B}
      → o ≡ ok (some bytes)
      → reply_cached s t tenant req key w (present o) ≡ (w, hit bytes)
  unfolding reply_cached
  hit_found tenant req key w (ok (some b)) e = cc
  hit_found tenant req key w (ok none) e = cc
  hit_found tenant req key w (err x) e = cc

module _ {F : Type 0} ⦃d : Float F⦄ {S B X P Y : Type 0} (s : Services S B X P Y) (t : Clock) where
  -- With a cache that remembers, a second request of the tenant with the key of an answered one is
  -- a cache hit with the first one's bytes.
  pub serve_chat-alike :
      (later : Clock) (again : Services S B X P Y) (tenant : Tenant) (req next : ChatRequest)
      (w w₂ : World F S) {bytes : B}
      → Remembers s.cache
      → again.cache ≡ s.cache
      → again.answer_key tenant.id next.model next.messages
        ≡ s.answer_key tenant.id req.model req.messages
      → (serve_chat s t tenant req false w).1 ≡ answered bytes
      → w₂.store ≡ (serve_chat s t tenant req false w).0.store
      → let (w', reply) = serve_chat again later tenant next false w₂ in
        (reply ≡ hit bytes)
        × (w'.limiter ≡ w₂.limiter)
        × (w'.monitor ≡ w₂.monitor)
        × (w'.log ≡ w₂.log)
  unfolding Saved serve_chat check_cache
  serve_chat-alike later again tenant req next w w₂ {bytes} remembers cache key e kept =
      let k = s.answer_key tenant.id req.model req.messages in
      let k₂ = again.answer_key tenant.id next.model next.messages in
      let (store, saved) = serve_chat-Saved s t tenant req false w e in
      let found : (again.cache.get later.routed k₂ w₂.store).1 ≡ ok (some bytes) =
        ap (λ c. (c.get later.routed k₂ w₂.store).1) cache
        ∙ ap (λ u. (s.cache.get later.routed u w₂.store).1) key
        ∙ ap (λ st. (s.cache.get later.routed k st).1) (kept ∙ saved)
        ∙ remembers t.logged later.routed k bytes (minutes 60) store in
      let (store', got) = again.cache.get later.routed k₂ w₂.store in
      let same = hit_found again later tenant next _ (record w₂ { store = store' }) got found in
      (
        ap (λ r. r.1) same,
        ap (λ r. r.0.limiter) same,
        ap (λ r. r.0.monitor) same,
        ap (λ r. r.0.log) same,
      )

  -- Of the handler from the cache check on, after the limiter let both requests through: with a
  -- cache that remembers, a tenant that asks again what was answered gets the same bytes as a cache
  -- hit, whatever the clock, the providers and the rest of the world are then, and this part of the
  -- second request changes neither the limiter nor the monitor nor the logs.
  pub serve_chat-replayed :
      (later : Clock) (again : Services S B X P Y) (tenant : Tenant) (req : ChatRequest)
      (w w₂ : World F S) {bytes : B}
      → Remembers s.cache
      → again.cache ≡ s.cache
      → again.answer_key ≡ s.answer_key
      → (serve_chat s t tenant req false w).1 ≡ answered bytes
      → w₂.store ≡ (serve_chat s t tenant req false w).0.store
      → let (w', reply) = serve_chat again later tenant req false w₂ in
        (reply ≡ hit bytes)
        × (w'.limiter ≡ w₂.limiter)
        × (w'.monitor ≡ w₂.monitor)
        × (w'.log ≡ w₂.log)
  serve_chat-replayed later again tenant req w w₂ remembers cache key e kept =
      serve_chat-alike later again tenant req req w w₂ remembers cache
        (ap (λ f. f tenant.id req.model req.messages) key) e kept
