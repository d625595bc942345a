-- ===== src/Concurrent/Passing.antt =====
-- internal/router/handler.go: what one step does to the requests of a tenant past the limiter.
use mathlib.Core.List.{append-nil}
use kenbun.Prelude.{
  ℕ, ◌≤◌, String, ◌≡◌, refl, sym, ◌∙◌, Bool, true, false, none, some, List, [], ◌∷◌, ℤ,
  if◌then◌else◌, ◌==◌, arith,
}
use kenbun.Float.{Float}
use kenbun.Selector.{best, less}
use kenbun.RateLimit.{allow}
use kenbun.Provider.{ChatRequest, ChatResponse, Outcome, ok, err}
use kenbun.Exchange.{
  Clock, HttpRequest, Services, StreamEvent, Tenant, World, cancelled, chunk, closed, present,
  problem,
}
use kenbun.Gateway.{budget_exhausted, sync_event, stream_event}
use kenbun.Concurrent.{
  Phase, arrived, unknown, loaded, known, asking, choosing, sending, reporting, broadcasting,
  saving, streaming, closing, finished, enter, admit, reported, pick_event, advance,
}
use kenbun.Concurrent.Pending.{
  held_by, looked_up-pending, fetched-pending, admitted-pending, replayed-pending,
  routed_to-pending,
}
use kenbun.Concurrent.Calls.{Admits, calls_of}

module _ {F : Type 0} ⦃d : Float F⦄ where
  module _ {S B X P Y : Type 0} (s : Services S B X P Y) (t : Clock) (q : String) where
    -- a step of one request
    abbrev pub Passes : Phase F X B P Y → World F S → World F S × Phase F X B P Y → Type 0
    Passes phase w (w', phase') =
        Admits q w w' (held_by q phase) (held_by q phase') (calls_of t phase)

    -- a step that makes no call and adds no record
    quiet :
        {w w' : World F S} {m n : ℕ}
        → w'.log ≡ w.log
        → w'.limiter ≡ w.limiter
        → n ≤ m
        → Admits q w w' m n []
    quiet {w} e l few = record {
      added = [];
      log = e ∙ sym (append-nil w.log);
      limiter = l;
      few = omega arith;
    }

    enter-Passes :
        (r : HttpRequest Y) (w : World F S) (b : Bool) → Passes (arrived r) w (enter s t r w b)
    unfolding enter
    enter-Passes r w true = quiet refl refl (omega arith)
    enter-Passes r w false =
        let hash = s.key_hash r.api_key in
        let got = present (s.cache.get t.started (s.tenant_key hash) w.store).1 in
        quiet refl refl (omega (arith, looked_up-pending F s t q hash r.body got))

    admit-Passes :
        (tenant : Tenant) (body : Y) (w : World F S) (b : Bool)
        → let (w', phase') = admit s t tenant body w b in
          Admits q w w' 0
            (held_by q phase')
            (if b then [] else (t.created, t.refilled, tenant.id, tenant.rate_limit_rpm) ∷ [])
    unfolding admit
    admit-Passes tenant body w true = quiet refl refl (omega arith)
    admit-Passes tenant body w false =
        let (limiter, result) =
          allow t.created t.refilled tenant.id tenant.rate_limit_rpm w.limiter in
        record {
          added = [];
          log = sym (append-nil w.log);
          limiter = refl;
          few = omega (arith, admitted-pending F s t q tenant body result.allowed);
        }

    reported-Passes :
        (p : P) (tenant : Tenant) (req : ChatRequest) (key : String) (w : World F S)
        (o : Outcome X ChatResponse)
        → Passes (sending p tenant req key) w (reported s t p tenant key w o)
    unfolding reported sync_event
    reported-Passes p tenant req key w (err x) = quiet refl refl (omega arith)
    reported-Passes p tenant req key w (ok resp) = quiet refl refl (omega arith)

    pick_event-Passes :
        (p : P) (req : ChatRequest) (tenant : Tenant) (es : List (StreamEvent X)) (m n : ℤ)
        (sent : List String) (w : World F S)
        → Passes (streaming p req tenant es m n sent) w (pick_event s t p req tenant es m n sent w)
    unfolding pick_event stream_event
    pick_event-Passes p req tenant [] m n sent w = quiet refl refl (omega arith)
    pick_event-Passes p req tenant (closed ∷ es) m n sent w = record {
      added = stream_event s t p req tenant m n ∷ [];
      log = refl;
      limiter = refl;
      few = omega arith;
    }
    pick_event-Passes p req tenant (chunk c ∷ es) m n sent w = quiet refl refl (omega arith)
    pick_event-Passes p req tenant (problem none ∷ es) m n sent w = quiet refl refl (omega arith)
    pick_event-Passes p req tenant (problem (some x) ∷ es) m n sent w =
        quiet refl refl (omega arith)
    pick_event-Passes p req tenant (cancelled ∷ es) m n sent w = quiet refl refl (omega arith)

    pub advance-Passes :
        (phase : Phase F X B P Y) (w : World F S) → Passes phase w (advance s t phase w)
    unfolding advance
    advance-Passes (arrived r) w = enter-Passes r w (r.api_key == "")
    advance-Passes (unknown hash body) w =
        quiet refl refl (omega (arith, fetched-pending F s t q hash body (s.find_tenant hash)))
    advance-Passes (loaded hash tenant body) w = quiet refl refl (omega arith)
    advance-Passes (known tenant body) w = admit-Passes tenant body w (budget_exhausted tenant)
    advance-Passes (asking tenant req key) w =
        let got = present (s.cache.get t.routed key w.store).1 in
        quiet refl refl (replayed-pending F s t q tenant req key got)
    advance-Passes (choosing tenant req key [] kept) w =
        let chosen = best s.sort (less s.provider_name t.routed w.monitor) kept in
        quiet refl refl (routed_to-pending F s t q tenant req key chosen req.stream)
    advance-Passes (choosing tenant req key (p ∷ ps) kept) w = quiet refl refl (omega arith)
    advance-Passes (sending p tenant req key) w = reported-Passes p tenant req key w (s.chat p req)
    advance-Passes (reporting event key bytes) w = record {
      added = event ∷ [];
      log = refl;
      limiter = refl;
      few = omega arith;
    }
    advance-Passes (broadcasting event key bytes) w = quiet refl refl (omega arith)
    advance-Passes (saving key bytes) w = quiet refl refl (omega arith)
    advance-Passes (streaming p req tenant es m n sent) w =
        pick_event-Passes p req tenant es m n sent w
    advance-Passes (closing event sent) w = quiet refl refl (omega arith)
    advance-Passes (finished reply) w = quiet refl refl (omega arith)
