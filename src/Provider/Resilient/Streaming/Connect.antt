-- ===== src/Provider/Resilient/Streaming/Connect.antt =====
-- What the goroutine sends once a base stream has begun.
use kenbun.Prelude.{
  ℕ, zero, suc, ◌≡◌, refl, sym, ap, ◌∙◌, ◌+◌, ◌<◌, Option, none, List, [], ◌∷◌, ◌++◌, pos, map,
  arith,
}
use kenbun.Float.{Float}
use kenbun.Provider.{ChatChunk, ChatRequest}
use kenbun.Provider.Resilient.{ResilientProvider, rounds}
use kenbun.Provider.Resilient.Streaming.{
  First, begun, ended, failed, expired, StreamScript, Connection, next_error, rest_before, go_on,
  connect, connect_loop, resilient_stream,
}
use kenbun.Channels.{put, deferred_closes, new_pipe, Sees}
use kenbun.Channels.Order.{puts, shown, Ends, ClosesLast, Sees-in_order}
use kenbun.Channels.Signals.{Calm, Sees-no_error}
use kenbun.Exchange.{StreamEvent, Services, Clock, World, Tenant}
use kenbun.Channels.Handled.{stream_loop-Flawless}
use mathlib.Core.Path.{subst}
use kenbun.Gateway.{stream_loop, handle_stream}

piped-Calm : (X : Type 0) (cs : List ChatChunk) → Calm {X = X} (map put cs ++ deferred_closes)
piped-Calm X [] = tt
piped-Calm X (c ∷ cs) = piped-Calm X cs

piped-ClosesLast :
    (X : Type 0) (cs : List ChatChunk) → ClosesLast {X = X} (map put cs ++ deferred_closes)
piped-ClosesLast X [] = refl
piped-ClosesLast X (c ∷ cs) = piped-ClosesLast X cs

puts-piped : (X : Type 0) (cs : List ChatChunk) → puts {X = X} (map put cs ++ deferred_closes) ≡ cs
puts-piped X [] = refl
puts-piped X (c ∷ cs) = ap (λ l. c ∷ l) (puts-piped X cs)

module _ {X : Type 0} where
  -- an attempt that brings no chunk while the request's context lives
  abbrev pub Fruitless : First X → Type 0
  Fruitless (begun c rest) = ⊥
  Fruitless _ = Unit

  module _ (p : ResilientProvider) (s : StreamScript X) where
    -- so are the attempts from `i` on, `k` of them
    abbrev pub FruitlessRun : ℕ → ℕ → Type 0
    FruitlessRun i zero = Unit
    FruitlessRun i (suc k) = Fruitless (s.first i) × (s.ctx_err i ≡ none) × FruitlessRun (suc i) k

    rest_before-sends : (i : ℕ) (next : Connection X) → (rest_before p i next).1 ≡ next.1
    unfolding rest_before
    rest_before-sends i next = ground arith

    connect-sends :
        (i : ℕ) (f : First X) (next : Connection X)
        → Fruitless f
        → (connect p i f none next).1 ≡ next.1
    unfolding connect go_on
    connect-sends i (begun c rest) next h = absurd h
    connect-sends i ended next h = rest_before-sends i next
    connect-sends i (failed e) next h = rest_before-sends i next
    connect-sends i (expired x) next h = rest_before-sends i next

    connect-begun :
        (i : ℕ) (f : First X) (e : Option X) (next : Connection X) {c : ChatChunk}
        {rest : List ChatChunk}
        → f ≡ begun c rest
        → (connect p i f e next).1 ≡ map put (c ∷ rest)
    unfolding connect
    connect-begun i (begun c rest) e next h = cc
    connect-begun i ended e next h = cc
    connect-begun i (failed x) e next h = cc
    connect-begun i (expired x) e next h = cc

    pub connect_loop-step :
        (i left : ℕ) (last : Option X)
        → Fruitless (s.first i)
        → s.ctx_err i ≡ none
        → (connect_loop p s (suc left) i last).1
          ≡ (connect_loop p s left (suc i) (next_error (s.first i) last)).1
    unfolding connect_loop
    connect_loop-step i left last f alive =
        let next = connect_loop p s left (suc i) (next_error (s.first i) last) in
        ap (λ e. (connect p i (s.first i) e next).1) alive ∙ connect-sends i (s.first i) next f

    loop-begun :
        (k i j left : ℕ) (last : Option X) (c : ChatChunk) (rest : List ChatChunk)
        → FruitlessRun i k
        → s.first j ≡ begun c rest
        → i + k ≡ j
        → k < left
        → (connect_loop p s left i last).1 ≡ map put (c ∷ rest)
    unfolding connect_loop
    loop-begun k i j zero last c rest f e q h = absurd (omega arith)
    loop-begun zero i j (suc left) last c rest f e q h =
        let here : j ≡ i = omega arith in connect-begun i (s.first i) (s.ctx_err i) _ (rw here at e)
    loop-begun (suc k) i j (suc left) last c rest (f, alive, fs) e q h =
        connect_loop-step i left last f alive
        ∙ loop-begun k (suc i) j left (next_error (s.first i) last) c rest fs e (omega arith)
            (omega arith)

    -- If the attempts before `k` bring no chunk while the context lives, and attempt `k`, within
    -- the retries, brings one, the goroutine puts it and what the base stream still gives, and
    -- sends no error.
    stream-begun :
        (n k : ℕ) (c : ChatChunk) (rest : List ChatChunk)
        → p.max_retries ≡ pos n
        → k < n + 1
        → FruitlessRun 0 k
        → s.first k ≡ begun c rest
        → (resilient_stream p s).1 ≡ map put (c ∷ rest) ++ deferred_closes
    unfolding resilient_stream rounds
    stream-begun n k c rest max h f e =
        ap (λ r. (connect_loop p s (rounds r) 0 none).1 ++ deferred_closes) max
        ∙ ap (λ l. l ++ deferred_closes)
            (loop-begun k 0 k (suc n) none c rest f e (omega arith) (omega arith))

  module _ {F : Type 0} ⦃d : Float F⦄ {S B P Y : Type 0} (s : Services S B X P Y) (t : Clock) where
    -- Once a base stream has begun within the retries, no error of it reaches the gateway: whatever
    -- the handler's `select` picks, the monitor stays as it was, and if the handler sees the stream
    -- end, it was shown the first chunk and just what the base stream gave after its context was
    -- cancelled.
    pub begun_stream-unreported :
        (p : ResilientProvider) (script : StreamScript X) (n k : ℕ) (c : ChatChunk)
        (rest : List ChatChunk) (q : P) (req : ChatRequest) (tenant : Tenant)
        (es : List (StreamEvent X)) (w : World F S)
        → p.max_retries ≡ pos n
        → k < n + 1
        → FruitlessRun p script 0 k
        → script.first k ≡ begun c rest
        → Sees (new_pipe (resilient_stream p script).1) es
        → s.chat_stream q req ≡ es
        → ((handle_stream s t q req tenant w).0.monitor ≡ w.monitor)
          × (Ends es → shown es ≡ c ∷ rest)
    unfolding handle_stream
    begun_stream-unreported p script n k c rest q req tenant es w max h f e sees given =
        let sends = map put (c ∷ rest) ++ deferred_closes in
        let plan = stream-begun p script n k c rest max h f e in
        let seen = subst (λ l. Sees (new_pipe l) es) plan sees in
        let (left, split, whole) = Sees-in_order sends es (piped-ClosesLast X (c ∷ rest)) seen in
        (
          ap (λ l. (stream_loop s t q req tenant l (pos 0) (pos 0) [] w).0.monitor) given
              ∙ stream_loop-Flawless s t q req tenant es (pos 0) (pos 0) [] w
                  (Sees-no_error sends es (piped-Calm X (c ∷ rest)) seen),
          λ end. sym (whole end) ∙ puts-piped X (c ∷ rest),
        )
