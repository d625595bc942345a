-- ===== src/Simulate/Waits.antt =====
-- scripts/simulate.go: the simulator stops when its requests are finished, and then it does stop.
use mathlib.Core.Path.{subst}
use kenbun.Prelude.{ℕ, zero, suc, ◌+◌, ◌≡◌, refl, arith}
use kenbun.Simulate.{
  Stage, sending, waiting, stopped, Simulator, Step, fire, return_one, interrupt, stop, Reach,
  launch, later,
}

-- the requests that are pending in a stage
abbrev pub Allowed : Stage → ℕ → Type 0
Allowed sending p = Unit
Allowed waiting p = Unit
Allowed stopped p = p ≡ 0

record Inv (s : Simulator) : Type 0 where
  counted : s.fired ≡ s.finished + s.pending
  allowed : Allowed s.stage s.pending

Step-Inv : {s t : Simulator} → Step s t → Inv s → Inv t
Step-Inv (fire f n p) i = record { counted = omega (arith, i.counted); allowed = tt }
Step-Inv (return_one sending f n p) i = record { counted = omega (arith, i.counted); allowed = tt }
Step-Inv (return_one waiting f n p) i = record { counted = omega (arith, i.counted); allowed = tt }
Step-Inv (return_one stopped f n p) i = absurd (omega (arith, i.allowed))
Step-Inv (interrupt f n p) i = record { counted = i.counted; allowed = tt }
Step-Inv (stop f n) i = record { counted = i.counted; allowed = refl }

Reach-Inv : {s : Simulator} → Reach s → Inv s
Reach-Inv launch = record { counted = refl; allowed = tt }
Reach-Inv (later r step) = Step-Inv step (Reach-Inv r)

-- the goroutines return one after the other, and then `wg.Wait` does
drain :
    (p f n : ℕ)
    → Reach (record { stage = waiting; fired = f; finished = n; pending = p })
    → Reach (record { stage = stopped; fired = f; finished = n + p; pending = 0 })
drain zero f n r =
    subst (λ m. Reach (record { stage = stopped; fired = f; finished = m; pending = 0 }))
      (omega arith) (later r (stop f n))
drain (suc p) f n r =
    subst (λ m. Reach (record { stage = stopped; fired = f; finished = m; pending = 0 }))
      (omega arith) (drain p f (suc n) (later r (return_one waiting f n p)))

-- When the simulator has stopped, every request that it fired is finished.
pub Reach-finished : {s : Simulator} → Reach s → s.stage ≡ stopped → s.finished ≡ s.fired
Reach-finished {s} r e =
    let i = Reach-Inv r in
    let none_left : s.pending ≡ 0 = subst (λ g. Allowed g s.pending) e i.allowed in
    omega (arith, i.counted, none_left)

-- After an interrupt the simulator can stop without a further request, when those that are pending
-- have finished.
pub Reach-stops :
    {s : Simulator}
    → Reach s
    → s.stage ≡ waiting
    → Reach (record { stage = stopped; fired = s.fired; finished = s.fired; pending = 0 })
Reach-stops {s} r e =
    let all : s.finished + s.pending ≡ s.fired = omega (arith, (Reach-Inv r).counted) in
    let stops = drain s.pending s.fired s.finished (
      subst
        (λ g.
          Reach (record { stage = g; fired = s.fired; finished = s.finished; pending = s.pending }))
        e r) in
    subst (λ n. Reach (record { stage = stopped; fired = s.fired; finished = n; pending = 0 })) all
      stops
