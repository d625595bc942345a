-- ===== src/Tests/Orders.antt =====
-- Two orders in which a map can be visited, at concrete inputs.
use kenbun.Prelude.{
  String, ◌≡◌, refl, Bool-cases, inl, inr, some, none, List, [], ◌∷◌, ◌==◌, if◌then◌else◌, eq_iff,
  arith,
}
use kenbun.Prelude.Map.{Map, lookup, insert}
use kenbun.Float.Fixed.{Fixed, fixed_float}
use kenbun.Budget.{Event, message, tick, flush, start, on_message}
use kenbun.Budget.Pending.{Distinct}
use kenbun.Budget.Ledger.{IsIteration}
use kenbun.Budget.Faults.{Unfailing}
use kenbun.Budget.Orders.{start-unordered}
use kenbun.Tests.Tables.{logged}
use kenbun.Tests.Limits.{
  add_cents, spent_of, seven_each, Always, add_cents-IsLedger, same_order, owed, each_once,
}

-- the second entry before the first
abbrev swap : Map Fixed → Map Fixed
swap [] = []
swap (e ∷ []) = e ∷ []
swap ((j, v) ∷ (k, w) ∷ m) = if j == k then (j, v) ∷ (k, w) ∷ m else (k, w) ∷ (j, v) ∷ m

lookup-swap : (q : String) (m : Map Fixed) → lookup q (swap m) ≡ lookup q m
unfolding lookup
lookup-swap q [] = refl
lookup-swap q (e ∷ []) = refl
lookup-swap q ((j, v) ∷ (k, w) ∷ m) = ground (arith, eq_iff j k, eq_iff j q, eq_iff k q)

swap-Distinct : (m : Map Fixed) → Distinct m → Distinct (swap m)
unfolding lookup
swap-Distinct [] h = h
swap-Distinct (e ∷ []) h = h
swap-Distinct ((j, v) ∷ (k, w) ∷ m) (new, (last, rest)) = elim (Bool-cases (j == k)) [
  | inl same ↦ rw same (new, (last, rest))
  | inr other ↦
      rw other (
        ground (arith, last, eq_iff j k),
        (ground (arith, new, other, eq_iff j k, eq_iff k j), rest),
      )
]

swap-IsIteration : IsIteration swap
swap-IsIteration = record { same = lookup-swap; once = swap-Distinct }

abbrev messages : List (Event Fixed)
messages = message (some logged) ∷ tick ∷ message none ∷ []

fine : Unfailing {F = Fixed} add_cents (λ m. m) "a" messages owed seven_each
unfolding start on_message flush lookup insert
fine = (tt, ((refl, (refl, (refl, tt))), (tt, tt)))

fine_swapped : Unfailing {F = Fixed} add_cents swap "a" messages owed seven_each
unfolding start on_message flush lookup insert
fine_swapped = (tt, ((refl, (refl, (refl, tt))), (tt, tt)))

start-unordered_example :
    let (n, after, returned) = start {F = Fixed} add_cents (λ m. m) messages owed seven_each in
    let (n', after', returned') = start {F = Fixed} add_cents swap messages owed seven_each in
    (n ≡ n') × (spent_of "a" after ≡ spent_of "a" after') × (returned ≡ returned')
start-unordered_example =
    start-unordered add_cents spent_of Always add_cents-IsLedger (λ m. m) swap same_order
      swap-IsIteration "a" messages owed seven_each each_once tt fine fine_swapped
