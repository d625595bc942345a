-- ===== src/Concurrent/Calls.antt =====
-- internal/router/handler.go, internal/ratelimit/ratelimit.go: the calls of `Allow` that steps
-- make, and how many of them are let through.
use kenbun.Prelude.{
  ℕ, zero, suc, ◌+◌, ◌≤◌, String, ◌≡◌, refl, ap, ◌&&◌, List, [], ◌∷◌, ◌++◌, map, ℤ, pos,
  if◌then◌else◌, ◌==◌, arith,
}
use kenbun.Float.{Float}
use kenbun.RateLimit.{TokenBucket, allow}
use kenbun.RateLimit.Burst.{Request, granted}
use kenbun.Exchange.{Clock, Services, World}
use kenbun.Logging.{LogEvent}
use kenbun.Gateway.{budget_exhausted}
use kenbun.Concurrent.{Phase, Task, known, turn}
use kenbun.Concurrent.Pending.{records_of}

-- a call of `Allow`: its two readings of the clock, the tenant and the limit
abbrev pub AllowCall : Type 0
AllowCall = ℕ × ℕ × String × ℤ

abbrev pub allow_at : ℕ → Request → AllowCall
allow_at now (tenant, limit) = (now, now, tenant, pos limit)

module _ {F : Type 0} ⦃d : Float F⦄ where
  -- how many of the calls of a tenant are let through, and the limiter after all calls
  abbrev pub let_through : String → List AllowCall → TokenBucket F → ℕ
  let_through q [] tb = 0
  let_through q ((created, now, tenant, limit) ∷ cs) tb =
      let (tb', answer) = allow created now tenant limit tb in
      (if (tenant == q) && answer.allowed then 1 else 0) + let_through q cs tb'

  abbrev pub limiter_after : List AllowCall → TokenBucket F → TokenBucket F
  limiter_after [] tb = tb
  limiter_after ((created, now, tenant, limit) ∷ cs) tb =
      limiter_after cs (allow created now tenant limit tb).0

  pub let_through-append :
      (q : String) (cs ds : List AllowCall) (tb : TokenBucket F)
      → let_through q (cs ++ ds) tb ≡ let_through q cs tb + let_through q ds (limiter_after cs tb)
  let_through-append q [] ds tb = omega arith
  let_through-append q ((created, now, tenant, limit) ∷ cs) ds tb =
      let tb' = (allow created now tenant limit tb).0 in
      omega (arith, let_through-append q cs ds tb')

  pub limiter_after-append :
      (cs ds : List AllowCall) (tb : TokenBucket F)
      → limiter_after (cs ++ ds) tb ≡ limiter_after ds (limiter_after cs tb)
  limiter_after-append [] ds tb = refl
  limiter_after-append ((created, now, tenant, limit) ∷ cs) ds tb =
      limiter_after-append cs ds (allow created now tenant limit tb).0

  pub let_through-granted :
      (now : ℕ) (q : String) (rs : List Request) (tb : TokenBucket F)
      → let_through q (map (allow_at now) rs) tb ≡ granted now q rs tb
  unfolding granted
  let_through-granted now q [] tb = refl
  let_through-granted now q ((tenant, limit) ∷ rs) tb =
      let (tb', answer) = allow now now tenant (pos limit) tb in
      ap (λ n. (if (tenant == q) && answer.allowed then 1 else 0) + n)
        (let_through-granted now q rs tb')

  -- What steps that make some calls do: every new record of the tenant and every request of the
  -- tenant past the limiter comes from one before, or from a call let through.
  pub record Admits {S : Type 0} (q : String) (before after : World F S) (held held' : ℕ)
      (cs : List AllowCall) : Type 0 where
    pub added : List (LogEvent F)
    pub log : after.log ≡ before.log ++ added
    pub limiter : after.limiter ≡ limiter_after cs before.limiter
    pub few : held' + records_of q added ≤ held + let_through q cs before.limiter

  module _ {X B P Y : Type 0} where
    -- the calls of `Allow` of one step
    abbrev pub calls_of : Clock → Phase F X B P Y → List AllowCall
    calls_of t (known tenant body) =
        if budget_exhausted tenant
        then []
        else (t.created, t.refilled, tenant.id, tenant.rate_limit_rpm) ∷ []
    calls_of t _ = []

    abbrev pub turn_calls : ℕ → List (Task F X B P Y) → List AllowCall
    turn_calls i [] = []
    turn_calls zero (k ∷ ks) = calls_of k.clock k.phase
    turn_calls (suc i) (k ∷ ks) = turn_calls i ks

  module _ {S B X P Y : Type 0} (s : Services S B X P Y) where
    -- The calls of `Allow` that a schedule makes.
    unfoldable pub allow_calls : List ℕ → World F S → List (Task F X B P Y) → List AllowCall
    unfolding turn
    allow_calls [] w ks = []
    allow_calls (i ∷ schedule) w ks =
        let (w', ks') = turn s i w ks in turn_calls i ks ++ allow_calls schedule w' ks'
