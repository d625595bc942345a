-- ===== src/Channels/Signals.antt =====
-- Which errors a stream shows: none that was not sent, and not always one that was.
use mathlib.Core.Path.{subst}
use kenbun.Prelude.{◌≡◌, ◌≢◌, refl, false, Option, none, some, List, [], ◌∷◌}
use kenbun.Provider.{ChatChunk}
use kenbun.Exchange.{StreamEvent, chunk, closed, problem, cancelled}
use kenbun.Gateway.Streams.{after_chunks}
use kenbun.Channels.{
  Send, put, report, close_errs, close_chunks, deferred_closes, Pipe, new_pipe, Sees, stop, hand,
  hold, end_errs, end_chunks, take_error, take_nil, take_closed, give_up,
}

-- a plan that sends no error, a nil one perhaps
abbrev pub Calm : {X : Type 0} → List (Send X) → Type 0
Calm [] = Unit
Calm (put c ∷ rest) = Calm rest
Calm (report none ∷ rest) = Calm rest
Calm (report (some x) ∷ rest) = ⊥
Calm (close_errs ∷ rest) = Calm rest
Calm (close_chunks ∷ rest) = Calm rest

-- no event is an error
abbrev pub Flawless : {X : Type 0} → List (StreamEvent X) → Type 0
Flawless [] = Unit
Flawless (chunk c ∷ es) = Flawless es
Flawless (closed ∷ es) = Flawless es
Flawless (problem none ∷ es) = Flawless es
Flawless (problem (some x) ∷ es) = ⊥
Flawless (cancelled ∷ es) = Flawless es

record IsCalm {X : Type 0} (p : Pipe X) : Type 0 where
  plan : Calm p.todo
  empty : (x : X) → p.held ≢ some (some x)

module _ {X : Type 0} where
  held_nil : (e : Option X) (rest : List (Send X)) → Calm (report e ∷ rest) → (e ≡ none) × Calm rest
  held_nil none rest c = (refl, c)
  held_nil (some x) rest c = absurd c

  Sees-Flawless : {p : Pipe X} {es : List (StreamEvent X)} → Sees p es → IsCalm p → Flawless es
  Sees-Flawless stop c = tt
  Sees-Flawless (hand k e r) c =
      Sees-Flawless r (record { plan = subst Calm e c.plan; empty = c.empty })
  Sees-Flawless (hold {rest = rest} x e f r) c =
      let (nil, calm) = held_nil x rest (subst Calm e c.plan) in
      Sees-Flawless r (record { plan = calm; empty = λ y h. cc })
  Sees-Flawless (end_errs e r) c =
      Sees-Flawless r (record { plan = subst Calm e c.plan; empty = c.empty })
  Sees-Flawless (end_chunks e r) c =
      Sees-Flawless r (record { plan = subst Calm e c.plan; empty = c.empty })
  Sees-Flawless (take_error none e r) c =
      Sees-Flawless r (record { plan = c.plan; empty = λ y h. cc })
  Sees-Flawless (take_error (some x) e r) c = absurd (c.empty x e)
  Sees-Flawless (take_nil e f r) c = Sees-Flawless r c
  Sees-Flawless (take_closed e r) c = Sees-Flawless r c
  Sees-Flawless (give_up r) c = Sees-Flawless r c

  -- A goroutine that sends no error shows none.
  pub Sees-no_error :
      (sends : List (Send X)) (es : List (StreamEvent X))
      → Calm sends
      → Sees (new_pipe sends) es
      → Flawless es
  unfolding new_pipe
  Sees-no_error sends es calm r = Sees-Flawless r (record { plan = calm; empty = λ x h. cc })

  -- the chunks, an error, and the deferred calls
  abbrev pub broken_off : List ChatChunk → X → List (Send X)
  broken_off [] x = report (some x) ∷ deferred_closes
  broken_off (c ∷ cs) x = put c ∷ broken_off cs x

  -- the same pipe on its way
  abbrev fresh : List (Send X) → Pipe X
  fresh sends = record { todo = sends; held = none; errs_closed = false; chunks_closed = false }

  error_noticed :
      (cs : List ChatChunk) (x : X)
      → Sees (fresh (broken_off cs x)) (after_chunks cs (problem (some x) ∷ []))
  error_noticed [] x = hold (some x) refl refl (take_error (some x) refl stop)
  error_noticed (c ∷ cs) x = hand c refl (error_noticed cs x)

  end_noticed :
      (cs : List ChatChunk) (x : X) → Sees (fresh (broken_off cs x)) (after_chunks cs (closed ∷ []))
  end_noticed [] x =
      hold (some x) refl refl (end_errs refl (end_chunks refl (take_closed refl stop)))
  end_noticed (c ∷ cs) x = hand c refl (end_noticed cs x)

  -- A goroutine that puts chunks, sends an error and ends may be seen to fail, and may as well be
  -- seen to end in good order, with the error never read: both channels are ready, and `select`
  -- picks one.
  pub error_raced :
      (cs : List ChatChunk) (x : X)
      → Sees (new_pipe (broken_off cs x)) (after_chunks cs (problem (some x) ∷ []))
        × Sees (new_pipe (broken_off cs x)) (after_chunks cs (closed ∷ []))
  unfolding new_pipe
  error_raced cs x = (error_noticed cs x, end_noticed cs x)
