-- ===== src/Concurrent/Admission.antt =====
-- internal/router/handler.go, internal/ratelimit/token_bucket.go: how many records of one tenant
-- the requests that are served at the same time can add to the log.
use mathlib.Core.List.{append_assoc, append-nil}
use kenbun.Prelude.{
  ℕ, zero, suc, ◌^◌, ◌≤◌, ◌<◌, String, ◌≡◌, refl, sym, ap, ◌∙◌, List, [], ◌∷◌, ◌++◌, map, All,
  arith,
}
use kenbun.Float.{Float, IsIeee}
use kenbun.RateLimit.Bounds.{IsValid}
use kenbun.RateLimit.Burst.{Request, granted-le}
use kenbun.Exchange.{Clock, HttpRequest, Services, World}
use kenbun.Logging.{LogEvent}
use kenbun.Concurrent.{Task, arrive, turn, interleave}
use kenbun.Concurrent.Counts.{total, total-arrive}
use kenbun.Concurrent.Pending.{records_of, records_of-append, held_by}
use kenbun.Concurrent.Calls.{
  allow_at, let_through, limiter_after, let_through-append, limiter_after-append,
  let_through-granted, Admits, turn_calls, allow_calls,
}
use kenbun.Concurrent.Passing.{advance-Passes}

module _ {F : Type 0} ⦃d : Float F⦄ where
  module _ {S B X P Y : Type 0} (s : Services S B X P Y) (q : String) where
    turn-Admits :
        (i : ℕ) (w : World F S) (ks : List (Task F X B P Y))
        → let (w', ks') = turn s i w ks in
          Admits q w w' (total (held_by q) ks) (total (held_by q) ks') (turn_calls i ks)
    unfolding turn
    turn-Admits i w [] = record {
      added = [];
      log = sym (append-nil w.log);
      limiter = refl;
      few = omega arith;
    }
    turn-Admits zero w (k ∷ ks) =
        let step = advance-Passes s k.clock q k.phase w in
        record {
          added = step.added;
          log = step.log;
          limiter = step.limiter;
          few = omega (arith, step.few);
        }
    turn-Admits (suc i) w (k ∷ ks) =
        let step = turn-Admits i w ks in
        record {
          added = step.added;
          log = step.log;
          limiter = step.limiter;
          few = omega (arith, step.few);
        }

    interleave-Admits :
        (schedule : List ℕ) (w : World F S) (ks : List (Task F X B P Y))
        → let (w', ks') = interleave s schedule w ks in
          Admits q w w' (total (held_by q) ks) (total (held_by q) ks') (allow_calls s schedule w ks)
    unfolding interleave allow_calls
    interleave-Admits [] w ks = record {
      added = [];
      log = sym (append-nil w.log);
      limiter = refl;
      few = omega arith;
    }
    interleave-Admits (i ∷ schedule) w ks =
        let (w1, ks1) = turn s i w ks in
        let step = turn-Admits i w ks in
        let more = interleave-Admits schedule w1 ks1 in
        let cs = turn_calls i ks in
        let ds = allow_calls s schedule w1 ks1 in
        record {
          added = step.added ++ more.added;
          log =
              more.log
              ∙ ap (λ l. l ++ more.added) step.log
              ∙ append_assoc w.log step.added more.added;
          limiter =
              more.limiter
              ∙ ap (limiter_after ds) step.limiter
              ∙ sym (limiter_after-append cs ds w.limiter);
          few =
              let split = let_through-append q cs ds w.limiter in
              let rest = ap (let_through q ds) step.limiter in
              omega
                (arith, step.few, more.few, split, rest, records_of-append q step.added more.added);
        }

    -- Whatever the order of the steps: if every call of the limiter is made at the reading `now` of
    -- the clock, below 2 ^ 63, with limits below 2 ^ 63, if those of the tenant all come with the
    -- limit `n`, at most 2 ^ 52, and the limiter starts in a sound state, then the requests add at
    -- most `n` records of the tenant to the log.
    pub interleave-admitted :
        (laws : IsIeee F) (now n : ℕ) (rs : List Request) (schedule : List ℕ)
        (requests : List (Clock × HttpRequest Y)) (w : World F S)
        → now < 2 ^ 63
        → n ≤ 2 ^ 52
        → allow_calls s schedule w (map arrive requests) ≡ map (allow_at now) rs
        → All (λ r. (r.1 < 2 ^ 63) × (r.0 ≡ q → r.1 ≡ n)) rs
        → IsValid now w.limiter
        → let w' = (interleave s schedule w (map arrive requests)).0 in
          (es : List (LogEvent F)) × (w'.log ≡ w.log ++ es) × (records_of q es ≤ n)
    interleave-admitted laws now n rs schedule requests w h k e l v =
        let all = interleave-Admits schedule w (map arrive requests) in
        let fresh = total-arrive {F = F} {X = X} {B = B} {P = P} (held_by q) (λ r. refl) requests in
        let same =
          ap (λ cs. let_through q cs w.limiter) e ∙ let_through-granted now q rs w.limiter in
        let few = granted-le laws now n q rs w.limiter h k l v in
        (all.added, all.log, omega (arith, all.few, fresh, same, few))
