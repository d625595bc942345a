-- ===== src/Gateway/Dispatch.antt =====
-- From the cache check to the answer: what stands behind a fresh answer of a provider.
use mathlib.Core.List.{Mem}
use mathlib.Core.Path.{subst}
use kenbun.Prelude.{
  String, ◌≡◌, refl, Bool, true, false, Option, none, some, List, [], ◌∷◌, ◌++◌, ℤ, pos,
}
use kenbun.Float.{Float, IsIeee}
use kenbun.Selector.{select}
use kenbun.Selector.Sort.{IsSort}
use kenbun.Selector.Registry.{eligible}
use kenbun.Selector.Choice.{ranking, select-some}
use kenbun.Health.Bounds.{IsValid}
use kenbun.Health.{EwmaMonitor}
use kenbun.Logging.{LogEvent}
use kenbun.Provider.{ChatRequest, ChatResponse, Outcome, ok, err}
use kenbun.Exchange.{
  Tenant, StreamEvent, chunk, closed, problem, cancelled, answered, streamed, waiting, Reply,
  Services, Clock, World, present,
}
use kenbun.Gateway.{
  write_log, sync_event, handle_sync, respond, hand_over, reply_cached, check_cache, stream_loop,
  handle_stream, dispatch, serve_chat,
}

-- the replies of the loop of a stream
abbrev pub IsShown : {B : Type 0} → Reply B → Type 0
IsShown (streamed sent) = Unit
IsShown (waiting sent) = Unit
IsShown _ = ⊥

module _ {F : Type 0} ⦃d : Float F⦄ {S B X P Y : Type 0} (s : Services S B X P Y) (t : Clock) where
  pub stream_loop-streamed :
      (p : P) (req : ChatRequest) (tenant : Tenant) (es : List (StreamEvent X)) (m n : ℤ)
      (sent : List String) (w : World F S)
      → IsShown (stream_loop s t p req tenant es m n sent w).1
  unfolding stream_loop
  stream_loop-streamed p req tenant [] m n sent w = tt
  stream_loop-streamed p req tenant (closed ∷ es) m n sent w = tt
  stream_loop-streamed p req tenant (chunk c ∷ es) m n sent w =
      stream_loop-streamed p req tenant es _ _ _ w
  stream_loop-streamed p req tenant (problem none ∷ es) m n sent w =
      stream_loop-streamed p req tenant es m n sent w
  stream_loop-streamed p req tenant (problem (some x) ∷ es) m n sent w = tt
  stream_loop-streamed p req tenant (cancelled ∷ es) m n sent w = tt

  -- what stands behind an answered request
  pub record IsAnswer (tenant : Tenant) (req : ChatRequest) (bytes : B) (monitor : EwmaMonitor F)
      (log broadcast : List (LogEvent F)) (after : World F S) : Type 0 where
    pub p : P
    pub resp : ChatResponse
    pub listed : Mem p s.providers
    pub fit : eligible s.provider_name t.routed tenant.provider_allowlist monitor p ≡ true
    pub best :
        (q : P)
        → Mem q s.providers
        → eligible s.provider_name t.routed tenant.provider_allowlist monitor q ≡ true
        → d.lt (ranking (s.provider_name q) monitor) (ranking (s.provider_name p) monitor) ≡ false
    pub sync : req.stream ≡ false
    pub told : s.chat p req ≡ ok resp
    pub body : bytes ≡ s.encode_response resp
    pub logged : after.log ≡ log ++ (sync_event s t p tenant resp ∷ [])
    pub sent : after.broadcast ≡ broadcast ++ (sync_event s t p tenant resp ∷ [])

  -- how the provider answered, and what was logged
  record IsTold (p : P) (tenant : Tenant) (req : ChatRequest) (bytes : B) (before after : World F S)
      : Type 0 where
    resp : ChatResponse
    told : s.chat p req ≡ ok resp
    body : bytes ≡ s.encode_response resp
    log : after.log ≡ before.log ++ (sync_event s t p tenant resp ∷ [])
    broadcast : after.broadcast ≡ before.broadcast ++ (sync_event s t p tenant resp ∷ [])

  responded :
      (p : P) (tenant : Tenant) (req : ChatRequest) (key : String) (w : World F S)
      (o : Outcome X ChatResponse) {bytes : B}
      → s.chat p req ≡ o
      → (respond s t p tenant key w o).1 ≡ answered bytes
      → IsTold p tenant req bytes w (respond s t p tenant key w o).0
  unfolding respond write_log
  responded p tenant req key w (err x) h e = cc
  responded p tenant req key w (ok resp) h e = record {
    resp = resp;
    told = h;
    body = cc;
    log = refl;
    broadcast = refl;
  }

  handed :
      (tenant : Tenant) (req : ChatRequest) (key : String) (w : World F S) (chosen : Option P)
      (stream : Bool) {bytes : B}
      → (hand_over s t tenant req key w chosen stream).1 ≡ answered bytes
      → (p : P) × (chosen ≡ some p)
        × (stream ≡ false)
        × IsTold p tenant req bytes w (hand_over s t tenant req key w chosen stream).0
  unfolding hand_over handle_stream handle_sync
  handed tenant req key w none stream e = cc
  handed tenant req key w (some p) true e = absurd (
      subst IsShown e
        (stream_loop-streamed p req tenant (s.chat_stream p req) (pos 0) (pos 0) [] w))
  handed tenant req key w (some p) false e =
      (p, refl, refl, responded p tenant req key w (s.chat p req) refl e)

  module _ (laws : IsIeee F) (sorted : IsSort s.sort) where
    dispatched :
        (tenant : Tenant) (req : ChatRequest) (key : String) (w : World F S) {bytes : B}
        → IsValid w.monitor
        → (dispatch s t tenant req key w).1 ≡ answered bytes
        → IsAnswer tenant req bytes w.monitor w.log w.broadcast (dispatch s t tenant req key w).0
    unfolding dispatch
    dispatched tenant req key w v e =
        let names = s.provider_name in
        let allowlist = tenant.provider_allowlist in
        let (m, chosen) = select names s.sort t.routed s.providers allowlist w.monitor in
        let (p, picked, sync, a) =
          handed tenant req key (record w { monitor = m }) chosen req.stream e in
        let (listed, fit, best) =
          select-some laws names s.sort sorted t.routed s.providers allowlist w.monitor v picked in
        record {
          p = p;
          resp = a.resp;
          listed = listed;
          fit = fit;
          best = best;
          sync = sync;
          told = a.told;
          body = a.body;
          logged = a.log;
          sent = a.broadcast;
        }

    checked :
        (tenant : Tenant) (req : ChatRequest) (key : String) (w : World F S) (found : Option B)
        {bytes : B}
        → IsValid w.monitor
        → (reply_cached s t tenant req key w found).1 ≡ answered bytes
        → IsAnswer tenant req bytes w.monitor w.log w.broadcast
            (reply_cached s t tenant req key w found).0
    unfolding reply_cached
    checked tenant req key w (some b) v e = cc
    checked tenant req key w none v e = dispatched tenant req key w v e

    pub chatted :
        (tenant : Tenant) (req : ChatRequest) (stream : Bool) (w : World F S) {bytes : B}
        → IsValid w.monitor
        → (serve_chat s t tenant req stream w).1 ≡ answered bytes
        → IsAnswer tenant req bytes w.monitor w.log w.broadcast
            (serve_chat s t tenant req stream w).0
    unfolding serve_chat check_cache
    chatted tenant req true w v e = dispatched tenant req _ w v e
    chatted tenant req false w v e =
        let key = s.answer_key tenant.id req.model req.messages in
        let (store, got) = s.cache.get t.routed key w.store in
        checked tenant req key (record w { store = store }) (present got) v e
