-- ===== src/Concurrent/Soundness.antt =====
-- internal/router/handler.go, internal/router/router.go: the numbers of the monitor that requests
-- share stay in their ranges.
use kenbun.Prelude.{
  ℕ, zero, suc, ◌-◌, String, Bool, true, false, if◌then◌else◌, ◌==◌, none, some, List, [], ◌∷◌, ℤ,
  pos,
}
use kenbun.Float.{Float, IsIeee}
use kenbun.Health.{EwmaMonitor, success, error, query, get_state, call}
use kenbun.Health.Bounds.{IsValid, call-IsValid}
use kenbun.Selector.{is_allowed}
use kenbun.Provider.{ChatRequest, ChatResponse, Outcome, ok, err}
use kenbun.Exchange.{
  HttpRequest, Services, Clock, StreamEvent, Tenant, World, chunk, closed, problem, cancelled,
}
use kenbun.Gateway.{budget_exhausted}
use kenbun.Concurrent.{
  Phase, Task, arrived, unknown, loaded, known, asking, choosing, sending, reporting, broadcasting,
  saving, streaming, closing, finished, enter, admit, reported, pick_event, advance, turn,
  interleave,
}

module _ {F : Type 0} ⦃d : Float F⦄ (laws : IsIeee F) {S B X P Y : Type 0}
    (s : Services S B X P Y) where
  module _ (t : Clock) where
    enter-IsValid :
        (r : HttpRequest Y) (w : World F S) (b : Bool)
        → IsValid w.monitor
        → IsValid (enter s t r w b).0.monitor
    unfolding enter
    enter-IsValid r w true v = v
    enter-IsValid r w false v = v

    admit-IsValid :
        (tenant : Tenant) (body : Y) (w : World F S) (b : Bool)
        → IsValid w.monitor
        → IsValid (admit s t tenant body w b).0.monitor
    unfolding admit
    admit-IsValid tenant body w true v = v
    admit-IsValid tenant body w false v = v

    reported-IsValid :
        (p : P) (tenant : Tenant) (key : String) (w : World F S) (o : Outcome X ChatResponse)
        → IsValid w.monitor
        → IsValid (reported s t p tenant key w o).0.monitor
    unfolding reported call
    reported-IsValid p tenant key w (err x) v =
        call-IsValid laws t.replied (error (s.provider_name p) (pos 500)) w.monitor v
    reported-IsValid p tenant key w (ok resp) v =
        call-IsValid laws t.replied (success (s.provider_name p) (t.replied - t.started)) w.monitor
          v

    pick_event-IsValid :
        (p : P) (req : ChatRequest) (tenant : Tenant) (es : List (StreamEvent X)) (m n : ℤ)
        (sent : List String) (w : World F S)
        → IsValid w.monitor
        → IsValid (pick_event s t p req tenant es m n sent w).0.monitor
    unfolding pick_event call
    pick_event-IsValid p req tenant [] m n sent w v = v
    pick_event-IsValid p req tenant (closed ∷ es) m n sent w v = v
    pick_event-IsValid p req tenant (chunk c ∷ es) m n sent w v = v
    pick_event-IsValid p req tenant (problem none ∷ es) m n sent w v = v
    pick_event-IsValid p req tenant (problem (some x) ∷ es) m n sent w v =
        call-IsValid laws t.replied (error (s.provider_name p) (pos 502)) w.monitor v
    pick_event-IsValid p req tenant (cancelled ∷ es) m n sent w v = v

    filter-IsValid :
        (p : P) (m : EwmaMonitor F) (allowed : Bool)
        → IsValid m
        → IsValid (if allowed then (get_state t.routed (s.provider_name p) m).0 else m)
    unfolding call
    filter-IsValid p m true v = call-IsValid laws t.routed (query (s.provider_name p)) m v
    filter-IsValid p m false v = v

    advance-IsValid :
        (phase : Phase F X B P Y) (w : World F S)
        → IsValid w.monitor
        → IsValid (advance s t phase w).0.monitor
    unfolding advance
    advance-IsValid (arrived r) w v = enter-IsValid r w (r.api_key == "") v
    advance-IsValid (unknown hash body) w v = v
    advance-IsValid (loaded hash tenant body) w v = v
    advance-IsValid (known tenant body) w v =
        admit-IsValid tenant body w (budget_exhausted tenant) v
    advance-IsValid (asking tenant req key) w v = v
    advance-IsValid (choosing tenant req key [] kept) w v = v
    advance-IsValid (choosing tenant req key (p ∷ ps) kept) w v =
        filter-IsValid p w.monitor (is_allowed (s.provider_name p) tenant.provider_allowlist) v
    advance-IsValid (sending p tenant req key) w v =
        reported-IsValid p tenant key w (s.chat p req) v
    advance-IsValid (reporting event key bytes) w v = v
    advance-IsValid (broadcasting event key bytes) w v = v
    advance-IsValid (saving key bytes) w v = v
    advance-IsValid (streaming p req tenant es m n sent) w v =
        pick_event-IsValid p req tenant es m n sent w v
    advance-IsValid (closing event sent) w v = v
    advance-IsValid (finished reply) w v = v

  turn-IsValid :
      (i : ℕ) (w : World F S) (ks : List (Task F X B P Y))
      → IsValid w.monitor
      → IsValid (turn s i w ks).0.monitor
  unfolding turn
  turn-IsValid i w [] v = v
  turn-IsValid zero w (k ∷ ks) v = advance-IsValid k.clock k.phase w v
  turn-IsValid (suc i) w (k ∷ ks) v = turn-IsValid i w ks v

  -- However the steps of requests are interleaved, from whatever phases: the error rate of every
  -- provider stays in [0, 1], its latency a number that is not negative, and its smoothing factor
  -- as it was.
  pub interleave-IsValid :
      (schedule : List ℕ) (w : World F S) (ks : List (Task F X B P Y))
      → IsValid w.monitor
      → IsValid (interleave s schedule w ks).0.monitor
  unfolding interleave
  interleave-IsValid [] w ks v = v
  interleave-IsValid (i ∷ schedule) w ks v =
      let (w', ks') = turn s i w ks in interleave-IsValid schedule w' ks' (turn-IsValid i w ks v)
