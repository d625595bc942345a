-- ===== src/Concurrent/Records.antt =====
-- internal/router/handler.go: what requests that are served at the same time add to the log.
use mathlib.Core.List.{append_assoc, append-nil}
use kenbun.Prelude.{
  ℕ, zero, suc, ◌+◌, ◌≤◌, String, ◌≡◌, refl, sym, ap, ◌∙◌, none, some, List, [], ◌∷◌, ◌++◌, map, ℤ,
  length, length-append, ◌==◌, arith,
}
use kenbun.Float.{Float}
use kenbun.Provider.{ChatRequest}
use kenbun.Exchange.{
  Clock, HttpRequest, Services, StreamEvent, Tenant, World, cancelled, chunk, present, closed,
  problem,
}
use kenbun.Logging.{LogEvent}
use kenbun.Gateway.{budget_exhausted, stream_event}
use kenbun.Concurrent.{
  Phase, Task, arrive, arrived, unknown, loaded, known, asking, choosing, sending, reporting,
  broadcasting, saving, streaming, closing, finished, pick_event, advance, turn, interleave,
}
use kenbun.Concurrent.Counts.{
  recorded, recordable, total, total-arrive, Plain, enter-Plain, fetched-Plain, admit-Plain,
  replayed-Plain, routed_to-Plain, reported-Plain,
}

-- The records added by a step, or by more, lie between what the requests surely added and what they
-- can have added.
record Accounts {F S : Type 0} (before after : World F S) (sure sure' most most' : ℕ) : Type 0 where
  added : List (LogEvent F)
  log : after.log ≡ before.log ++ added
  low : sure' ≤ sure + length added
  high : most + length added ≤ most'

unlogged :
    {F S : Type 0} {w w' : World F S} {a b m n : ℕ}
    → w'.log ≡ w.log
    → b ≤ a
    → m ≤ n
    → Accounts w w' a b m n
unlogged {w} e low high = record {
  added = [];
  log = e ∙ sym (append-nil w.log);
  low = omega arith;
  high = omega arith;
}

-- the same records, counted in more requests
widened :
    {F S : Type 0} {w w' : World F S} {a a' b b' m m' n n' : ℕ} (step : Accounts w w' a a' m m')
    → b' ≤ b + length step.added
    → n + length step.added ≤ n'
    → Accounts w w' b b' n n'
widened step low high = record { added = step.added; log = step.log; low = low; high = high }

module _ {F : Type 0} ⦃d : Float F⦄ {S B X P Y : Type 0} where
  -- a step of one request
  abbrev Adds : World F S → Phase F X B P Y → World F S × Phase F X B P Y → Type 0
  Adds w phase (w', phase') =
      Accounts w w' (recorded phase) (recorded phase') (recordable phase) (recordable phase')

  module _ (s : Services S B X P Y) (t : Clock) where
    Plain-Adds :
        (w : World F S) (r : World F S × Phase F X B P Y)
        → Plain s t w r
        → Accounts w r.0 0 (recorded r.1) 0 (recordable r.1)
    Plain-Adds w (w', phase) (e, low, high) = unlogged e (omega (arith, low)) (omega (arith, high))

    pick_event-Adds :
        (p : P) (req : ChatRequest) (tenant : Tenant) (es : List (StreamEvent X)) (m n : ℤ)
        (sent : List String) (w : World F S)
        → Adds w (streaming p req tenant es m n sent) (pick_event s t p req tenant es m n sent w)
    unfolding pick_event
    pick_event-Adds p req tenant [] m n sent w = unlogged refl (omega arith) (omega arith)
    pick_event-Adds p req tenant (closed ∷ es) m n sent w = record {
      added = stream_event s t p req tenant m n ∷ [];
      log = refl;
      low = omega arith;
      high = omega arith;
    }
    pick_event-Adds p req tenant (chunk c ∷ es) m n sent w =
        unlogged refl (omega arith) (omega arith)
    pick_event-Adds p req tenant (problem none ∷ es) m n sent w =
        unlogged refl (omega arith) (omega arith)
    pick_event-Adds p req tenant (problem (some x) ∷ es) m n sent w =
        unlogged refl (omega arith) (omega arith)
    pick_event-Adds p req tenant (cancelled ∷ es) m n sent w =
        unlogged refl (omega arith) (omega arith)

    advance-Adds : (phase : Phase F X B P Y) (w : World F S) → Adds w phase (advance s t phase w)
    unfolding advance
    advance-Adds (arrived r) w = Plain-Adds w _ (enter-Plain s t r w (r.api_key == ""))
    advance-Adds (unknown hash body) w =
        Plain-Adds w _ (fetched-Plain s t hash body w (s.find_tenant hash))
    advance-Adds (loaded hash tenant body) w = unlogged refl (omega arith) (omega arith)
    advance-Adds (known tenant body) w =
        Plain-Adds w _ (admit-Plain s t tenant body w (budget_exhausted tenant))
    advance-Adds (asking tenant req key) w =
        let (store, got) = s.cache.get t.routed key w.store in
        Plain-Adds w _ (replayed-Plain s t tenant req key w store (present got))
    advance-Adds (choosing tenant req key [] kept) w =
        Plain-Adds w _ (routed_to-Plain s t tenant req key w _ req.stream)
    advance-Adds (choosing tenant req key (p ∷ ps) kept) w =
        unlogged refl (omega arith) (omega arith)
    advance-Adds (sending p tenant req key) w =
        Plain-Adds w _ (reported-Plain s t p tenant key w (s.chat p req))
    advance-Adds (reporting event key bytes) w = record {
      added = event ∷ [];
      log = refl;
      low = omega arith;
      high = omega arith;
    }
    advance-Adds (broadcasting event key bytes) w = unlogged refl (omega arith) (omega arith)
    advance-Adds (saving key bytes) w = unlogged refl (omega arith) (omega arith)
    advance-Adds (streaming p req tenant es m n sent) w = pick_event-Adds p req tenant es m n sent w
    advance-Adds (closing event sent) w = unlogged refl (omega arith) (omega arith)
    advance-Adds (finished reply) w = unlogged refl (omega arith) (omega arith)

  module _ (s : Services S B X P Y) where
    -- the steps of some requests
    abbrev Balances : World F S → List (Task F X B P Y) → World F S × List (Task F X B P Y) → Type 0
    Balances w ks (w', ks') =
        Accounts w w' (total recorded ks) (total recorded ks') (total recordable ks)
          (total recordable ks')

    turn-Balances :
        (i : ℕ) (w : World F S) (ks : List (Task F X B P Y)) → Balances w ks (turn s i w ks)
    unfolding turn
    turn-Balances i w [] = unlogged refl (omega arith) (omega arith)
    turn-Balances zero w (k ∷ ks) =
        let step = advance-Adds s k.clock k.phase w in
        widened step (omega (arith, step.low)) (omega (arith, step.high))
    turn-Balances (suc i) w (k ∷ ks) =
        let step = turn-Balances i w ks in
        widened step (omega (arith, step.low)) (omega (arith, step.high))

    interleave-Balances :
        (schedule : List ℕ) (w : World F S) (ks : List (Task F X B P Y))
        → Balances w ks (interleave s schedule w ks)
    unfolding interleave
    interleave-Balances [] w ks = unlogged refl (omega arith) (omega arith)
    interleave-Balances (i ∷ schedule) w ks =
        let (w1, ks1) = turn s i w ks in
        let step = turn-Balances i w ks in
        let more = interleave-Balances schedule w1 ks1 in
        record {
          added = step.added ++ more.added;
          log =
              more.log
              ∙ ap (λ l. l ++ more.added) step.log
              ∙ append_assoc w.log step.added more.added;
          low = omega (arith, step.low, more.low, length-append step.added more.added);
          high = omega (arith, step.high, more.high, length-append step.added more.added);
        }

    -- However the steps of requests are interleaved, and wherever they are stopped, the log is the
    -- log before with some records after it: at least one for each request that was answered, and
    -- at most one for each request that was answered, was streamed or has its record made.
    pub interleave-recorded :
        (schedule : List ℕ) (rs : List (Clock × HttpRequest Y)) (w : World F S)
        → let (w', ks) = interleave s schedule w (map arrive rs) in
          (es : List (LogEvent F)) × (w'.log ≡ w.log ++ es)
          × (total recorded ks ≤ length es)
          × (length es ≤ total recordable ks)
    interleave-recorded schedule rs w =
        let all = interleave-Balances schedule w (map arrive rs) in
        let sure = total-arrive {F = F} {X = X} {B = B} {P = P} recorded (λ r. refl) rs in
        let most = total-arrive {F = F} {X = X} {B = B} {P = P} recordable (λ r. refl) rs in
        (all.added, all.log, omega (arith, sure, all.low), omega (arith, most, all.high))
