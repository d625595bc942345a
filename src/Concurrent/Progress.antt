-- ===== src/Concurrent/Progress.antt =====
-- internal/router/handler.go: no request waits for another: after so many of its own steps it ends,
-- or waits for a stream that sends nothing more, whatever the others do meanwhile.
use kenbun.Prelude.{
  ℕ, zero, suc, ◌+◌, ◌-◌, ◌≤◌, String, Bool, true, false, none, some, List, [], ◌∷◌, map, ℤ,
  if◌then◌else◌, ◌==◌, arith, not, ◌&&◌,
}
use kenbun.Float.{Float}
use kenbun.RateLimit.{allow}
use kenbun.Health.{get_state}
use kenbun.Selector.{best, less, is_allowed, is_unhealthy}
use kenbun.Selector.Sort.{IsSort}
use kenbun.Provider.{ChatRequest, ChatResponse, Outcome, ok, err}
use kenbun.Exchange.{
  Clock, HttpRequest, Services, StreamEvent, Tenant, World, cancelled, chunk, closed, present,
  problem,
}
use kenbun.Gateway.{budget_exhausted}
use kenbun.Concurrent.{
  Phase, Task, arrive, arrived, unknown, loaded, known, asking, choosing, sending, reporting,
  broadcasting, saving, streaming, closing, finished, enter, admit, reported, pick_event, advance,
  turn, interleave,
}
use kenbun.Concurrent.Left.{
  mem-best, kept-events, room, steps_left, looked_up-left, fetched-left, admitted-left,
  replayed-left, routed_to-left, stream_left, stream_left-le,
}

-- whether two positions are the same
abbrev pub is_same : ℕ → ℕ → Bool
is_same zero zero = true
is_same zero (suc j) = false
is_same (suc i) zero = false
is_same (suc i) (suc j) = is_same i j

-- how often a position has its turn
abbrev pub turns_of : ℕ → List ℕ → ℕ
turns_of i [] = 0
turns_of i (j ∷ schedule) = (if is_same i j then 1 else 0) + turns_of i schedule

-- finished, or in the `select` of a stream that has nothing more to give
abbrev pub IsFinished : {F X B P Y : Type 0} → Phase F X B P Y → Type 0
IsFinished (finished reply) = Unit
IsFinished (streaming p req tenant [] m n sent) = Unit
IsFinished _ = ⊥

module _ {F X B P Y : Type 0} where
  -- the request at a position, if there is one, is finished
  abbrev pub IsDone : ℕ → List (Task F X B P Y) → Type 0
  IsDone i [] = Unit
  IsDone zero (k ∷ ks) = IsFinished k.phase
  IsDone (suc i) (k ∷ ks) = IsDone i ks

module _ {F : Type 0} ⦃d : Float F⦄ {S B X P Y : Type 0} (s : Services S B X P Y)
    (sorts : IsSort s.sort) where
  module _ (t : Clock) where
    -- one step less is left, unless none was
    abbrev Shorter : ℕ → World F S × Phase F X B P Y → Type 0
    Shorter n (w, phase) = steps_left s phase ≤ n

    enter-Shorter :
        (r : HttpRequest Y) (w : World F S) (b : Bool)
        → Shorter (9 + room s (s.decode_request r.body)) (enter s t r w b)
    unfolding steps_left enter
    enter-Shorter r w true = omega arith
    enter-Shorter r w false =
        let hash = s.key_hash r.api_key in
        looked_up-left F s t hash r.body
          (present (s.cache.get t.started (s.tenant_key hash) w.store).1)

    admit-Shorter :
        (tenant : Tenant) (body : Y) (w : World F S) (b : Bool)
        → Shorter (6 + room s (s.decode_request body)) (admit s t tenant body w b)
    unfolding steps_left admit
    admit-Shorter tenant body w true = omega arith
    admit-Shorter tenant body w false =
        let (limiter, result) =
          allow t.created t.refilled tenant.id tenant.rate_limit_rpm w.limiter in
        admitted-left F s t tenant body result.allowed

    reported-Shorter :
        (p : P) (tenant : Tenant) (key : String) (w : World F S) (o : Outcome X ChatResponse)
        → Shorter 3 (reported s t p tenant key w o)
    unfolding steps_left reported
    reported-Shorter p tenant key w (err x) = omega arith
    reported-Shorter p tenant key w (ok resp) = omega arith

    pick_event-Shorter :
        (p : P) (req : ChatRequest) (tenant : Tenant) (es : List (StreamEvent X)) (m n : ℤ)
        (sent : List String) (w : World F S)
        → Shorter (stream_left es - 1) (pick_event s t p req tenant es m n sent w)
    unfolding steps_left pick_event
    pick_event-Shorter p req tenant [] m n sent w = omega arith
    pick_event-Shorter p req tenant (closed ∷ es) m n sent w = omega arith
    pick_event-Shorter p req tenant (chunk c ∷ es) m n sent w = omega (arith, stream_left-le es)
    pick_event-Shorter p req tenant (problem none ∷ es) m n sent w =
        omega (arith, stream_left-le es)
    pick_event-Shorter p req tenant (problem (some x) ∷ es) m n sent w = omega arith
    pick_event-Shorter p req tenant (cancelled ∷ es) m n sent w = omega arith

    advance-Shorter :
        (phase : Phase F X B P Y) (w : World F S)
        → Shorter (steps_left s phase - 1) (advance s t phase w)
    unfolding steps_left advance
    advance-Shorter (arrived r) w = omega (arith, enter-Shorter r w (r.api_key == ""))
    advance-Shorter (unknown hash body) w =
        omega (arith, fetched-left F s t hash body (s.find_tenant hash))
    advance-Shorter (loaded hash tenant body) w = omega arith
    advance-Shorter (known tenant body) w =
        omega (arith, admit-Shorter tenant body w (budget_exhausted tenant))
    advance-Shorter (asking tenant req key) w =
        let got = present (s.cache.get t.routed key w.store).1 in
        omega (arith, replayed-left F s t tenant req key got)
    advance-Shorter (choosing tenant req key [] kept) w =
        let cmp = less s.provider_name t.routed w.monitor in
        let few =
          routed_to-left F s t tenant req key kept (best s.sort cmp kept) req.stream
            (λ p e. mem-best s.sort cmp kept sorts e) in
        omega (arith, few)
    advance-Shorter (choosing tenant req key (p ∷ ps) kept) w =
        let asked = get_state t.routed (s.provider_name p) w.monitor in
        let allowed = is_allowed (s.provider_name p) tenant.provider_allowlist in
        omega (arith, kept-events s req p kept (allowed && not (is_unhealthy asked.1)))
    advance-Shorter (sending p tenant req key) w =
        omega (arith, reported-Shorter p tenant key w (s.chat p req))
    advance-Shorter (reporting event key bytes) w = omega arith
    advance-Shorter (broadcasting event key bytes) w = omega arith
    advance-Shorter (saving key bytes) w = omega arith
    advance-Shorter (streaming p req tenant es m n sent) w =
        omega (arith, pick_event-Shorter p req tenant es m n sent w)
    advance-Shorter (closing event sent) w = omega arith
    advance-Shorter (finished reply) w = omega arith

  -- the steps that the request at a position has left
  abbrev pub left_at : ℕ → List (Task F X B P Y) → ℕ
  left_at i [] = 0
  left_at zero (k ∷ ks) = steps_left s k.phase
  left_at (suc i) (k ∷ ks) = left_at i ks

  turn-left_at :
      (i j : ℕ) (w : World F S) (ks : List (Task F X B P Y))
      → left_at i (turn s j w ks).1 ≤ left_at i ks - (if is_same i j then 1 else 0)
  unfolding turn
  turn-left_at i j w [] = omega arith
  turn-left_at zero zero w (k ∷ ks) = advance-Shorter k.clock k.phase w
  turn-left_at zero (suc j) w (k ∷ ks) = omega arith
  turn-left_at (suc i) zero w (k ∷ ks) = omega arith
  turn-left_at (suc i) (suc j) w (k ∷ ks) = turn-left_at i j w ks

  interleave-left_at :
      (i : ℕ) (schedule : List ℕ) (w : World F S) (ks : List (Task F X B P Y))
      → left_at i (interleave s schedule w ks).1 ≤ left_at i ks - turns_of i schedule
  unfolding interleave
  interleave-left_at i [] w ks = omega arith
  interleave-left_at i (j ∷ schedule) w ks =
      let (w', ks') = turn s j w ks in
      omega (arith, turn-left_at i j w ks, interleave-left_at i schedule w' ks')

  steps_left-IsFinished : (phase : Phase F X B P Y) → steps_left s phase ≤ 0 → IsFinished phase
  unfolding steps_left
  steps_left-IsFinished (arrived r) h = omega arith
  steps_left-IsFinished (unknown hash body) h = omega arith
  steps_left-IsFinished (loaded hash tenant body) h = omega arith
  steps_left-IsFinished (known tenant body) h = omega arith
  steps_left-IsFinished (asking tenant req key) h = omega arith
  steps_left-IsFinished (choosing tenant req key ps kept) h = omega arith
  steps_left-IsFinished (sending p tenant req key) h = omega arith
  steps_left-IsFinished (reporting event key bytes) h = omega arith
  steps_left-IsFinished (broadcasting event key bytes) h = omega arith
  steps_left-IsFinished (saving key bytes) h = omega arith
  steps_left-IsFinished (streaming p req tenant [] m n sent) h = tt
  steps_left-IsFinished (streaming p req tenant (e ∷ es) m n sent) h = omega arith
  steps_left-IsFinished (closing event sent) h = omega arith
  steps_left-IsFinished (finished reply) h = tt

  left_at-IsDone : (i : ℕ) (ks : List (Task F X B P Y)) → left_at i ks ≤ 0 → IsDone i ks
  left_at-IsDone i [] h = tt
  left_at-IsDone zero (k ∷ ks) h = steps_left-IsFinished k.phase h
  left_at-IsDone (suc i) (k ∷ ks) h = left_at-IsDone i ks h

  -- A request that had ten turns, and one more for each provider and for each event that a stream
  -- of a provider has for it, is finished or waits for a stream that gives nothing more, whatever
  -- turns other requests had meanwhile.
  pub interleave-IsDone :
      (i : ℕ) (schedule : List ℕ) (rs : List (Clock × HttpRequest Y)) (w : World F S)
      → left_at i (map arrive rs) ≤ turns_of i schedule
      → IsDone i (interleave s schedule w (map arrive rs)).1
  interleave-IsDone i schedule rs w h =
      left_at-IsDone i _ (omega (arith, interleave-left_at i schedule w (map arrive rs)))
