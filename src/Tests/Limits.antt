-- ===== src/Tests/Limits.antt =====
-- Runs of the limiter and of the budget processor at concrete inputs, in fixed point.
use mathlib.Core.Bool.{false≢true}
use kenbun.Prelude.{
  quot, rem, eq_iff, String, ◌≡◌, ◌≢◌, refl, none, List, [], ◌∷◌, ℤ, pos, ◌+ℤ◌, arith, ◌≤◌, ◌==◌,
  if◌then◌else◌,
}
use kenbun.Prelude.Map.{Map, lookup, insert}
use kenbun.Float.Fixed.{Fixed, fixed_float, Fixed-IsIeee}
use kenbun.RateLimit.{
  new_token_bucket, allow, decide, find_bucket, refill, grown, cap_tokens, initial_tokens, seconds,
}
use kenbun.RateLimit.Bounds.{IsValid}
use kenbun.RateLimit.Burst.{Request, granted, granted-le}
use kenbun.Budget.{UpdateSpend, flush}
use kenbun.Budget.Pending.{Distinct}
use kenbun.Budget.Ledger.{IsLedger, IsIteration, cents_of, flush-spent}

IsValid-empty : IsValid 5 (new_token_bucket {F = Fixed})
unfolding new_token_bucket lookup
IsValid-empty q b e = cc

another : ◌≢◌ {A = String} "b" "a"
another e = false≢true ((eq_iff "b" "a").1 e)

-- two tenants, one of them with many calls
abbrev requests : List Request
requests = ("a", 20) ∷ ("b", 60) ∷ ("a", 20) ∷ ("a", 20) ∷ []

-- Two of the three calls of `a` are let through: a new bucket starts at a tenth of the limit.
two_granted : granted 5 "a" requests (new_token_bucket {F = Fixed}) ≡ 2
unfolding granted allow decide find_bucket refill grown cap_tokens initial_tokens seconds quot rem
    lookup insert new_token_bucket
two_granted = refl

granted-le_example : granted 5 "a" requests (new_token_bucket {F = Fixed}) ≤ 20
granted-le_example =
    granted-le Fixed-IsIeee 5 20 "a" requests new_token_bucket (omega arith) (omega arith)
      (
        (omega arith, λ e. refl),
        (
          (omega arith, λ e. absurd (another e)),
          ((omega arith, λ e. refl), ((omega arith, λ e. refl), tt)),
        ),
      )
      IsValid-empty

-- a database as a function from tenants to cents
abbrev pub Cents : Type 0
Cents = String → ℤ

abbrev pub add_cents : UpdateSpend Cents String
add_cents id cents db = (λ q. if id == q then db q +ℤ cents else db q, none)

abbrev pub spent_of : String → Cents → ℤ
spent_of q db = db q

abbrev pub seven_each : Cents
seven_each q = pos 7

abbrev pub Always : String → Cents → Type 0
Always q db = Unit

pub add_cents-IsLedger : IsLedger add_cents spent_of Always
add_cents-IsLedger = record {
  adds = λ id q cents db k e. refl;
  stays = λ id q cents db k. k;
  keeps = λ id q cents db x e. cc;
}

pub same_order : IsIteration {V = Fixed} (λ m. m)
same_order = record { same = λ q m. refl; once = λ m h. h }

-- 2.5 cents and half a cent
abbrev pub owed : Map Fixed
owed = ("a", 2500000) ∷ ("b", 500000) ∷ []

pub each_once : Distinct owed
unfolding lookup
each_once = (refl, (refl, tt))

flush-spent_example :
    let (m', db') = flush add_cents (λ m. m) owed seven_each in
    (m' ≡ []) × (spent_of "a" db' ≡ spent_of "a" seven_each +ℤ cents_of (lookup "a" owed))
flush-spent_example =
    flush-spent add_cents (λ m. m) spent_of Always add_cents-IsLedger same_order "a" owed seven_each
      tt (refl, (refl, tt)) each_once
