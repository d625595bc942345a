-- ===== src/Budget/Ledger.antt =====
-- What the processor charges: the whole cents of what is pending, and nothing for what is below a
-- cent.
use mathlib.Core.Path.{subst}
use kenbun.Prelude.{
  String, ◌≡◌, refl, sym, ◌∙◌, ap, Bool-cases, Option-cases, false, inl, inr, Option, none, some,
  [], ◌∷◌, ℤ, pos, ◌+ℤ◌, if◌then◌else◌, ◌==◌, eq_iff, arith,
}
use kenbun.Prelude.Map.{Map, lookup}
use kenbun.Float.{Float, IsIeee, ◌≺◌, zero_float, one_float, NonNeg}
use kenbun.Budget.{UpdateSpend, pending_of, write_all, flush}
use kenbun.Budget.Pending.{Distinct}
use kenbun.Budget.Faults.{Written, Flushed}

-- What `UPDATE tenants SET spent_cents = spent_cents + $1 WHERE id = $2` does to the tenants that
-- the database knows: it adds, or fails and changes nothing.
pub record IsLedger {D X : Type 0} (update : UpdateSpend D X) (spent : String → D → ℤ)
    (known : String → D → Type 0) : Type 0 where
  pub adds :
      (id q : String) (cents : ℤ) (db : D)
      → known q db
      → (update id cents db).1 ≡ none
      → spent q (update id cents db).0 ≡ (if id == q then spent q db +ℤ cents else spent q db)
  pub stays : (id q : String) (cents : ℤ) (db : D) → known q db → known q (update id cents db).0
  pub keeps :
      (id q : String) (cents : ℤ) (db : D) (x : X)
      → (update id cents db).1 ≡ some x
      → spent q (update id cents db).0 ≡ spent q db

-- What is relied on of `range` over a map: every entry is visited, once.
pub record IsIteration {V : Type 0} (order : Map V → Map V) : Type 0 where
  pub same : (q : String) (m : Map V) → lookup q (order m) ≡ lookup q m
  pub once : (m : Map V) → Distinct m → Distinct (order m)

add-nothing : (a : ℤ) → a +ℤ pos 0 ≡ a
unfolding ◌+ℤ◌
add-nothing a = ground arith

-- an update of another tenant, whether it fails or not
pub update-other :
    {D X : Type 0} (update : UpdateSpend D X) (spent : String → D → ℤ) (known : String → D → Type 0)
    → IsLedger update spent known
    → (id q : String) (cents : ℤ) (db : D) → known q db
    → (id == q) ≡ false
    → spent q (update id cents db).0 ≡ spent q db
update-other update spent known ledger id q cents db k miss =
    elim (Option-cases (update id cents db).1) [
      | inl works ↦ let here = ledger.adds id q cents db k works in rw miss at here
      | inr (x, fails) ↦ ledger.keeps id q cents db x fails
    ]

module _ {F : Type 0} ⦃d : Float F⦄ where
  -- the whole cents of an amount that may be missing
  abbrev pub cents_of : Option F → ℤ
  cents_of none = pos 0
  cents_of (some cost) = d.trunc cost

  module _ {D X : Type 0} (update : UpdateSpend D X) (order : Map F → Map F)
      (spent : String → D → ℤ) (known : String → D → Type 0) where
    module _ (ledger : IsLedger update spent known) (iteration : IsIteration order) where
      write_all-spent :
          (q : String) (m : Map F) (db : D)
          → known q db
          → Written update order q m db
          → Distinct m
          → spent q (write_all update order m db) ≡ spent q db +ℤ cents_of (lookup q m)
      unfolding write_all lookup
      write_all-spent q [] db k w h = sym (add-nothing (spent q db))
      write_all-spent q ((id, cost) ∷ m) db k (fine, w) (new, rest) =
          let db' = (update id (d.trunc cost) db).0 in
          let later = write_all-spent q m db' (ledger.stays id q (d.trunc cost) db k) w rest in
          elim (Bool-cases (id == q)) [
            | inl hit ↦
                let gone = subst (λ r. lookup r m ≡ none) ((eq_iff id q).0 hit) new in
                let here = ledger.adds id q (d.trunc cost) db k (rw hit at fine) in
                later
                ∙ ap (λ o. spent q db' +ℤ cents_of o) gone
                ∙ add-nothing (spent q db')
                ∙ (rw hit at here)
                ∙ sym (rw hit)
            | inr miss ↦
                later
                ∙ ap (λ s. s +ℤ cents_of (lookup q m))
                    (update-other update spent known ledger id q (d.trunc cost) db k miss)
                ∙ sym (rw miss)
          ]

      -- If each tenant is pending once, the database knows the tenant and its update in this flush
      -- reports no error, the flush charges the tenant exactly the whole cents of what was pending
      -- for it, in whatever order the map is visited and whichever updates of others fail, and
      -- nothing stays pending.
      pub flush-spent :
          (q : String) (m : Map F) (db : D)
          → known q db
          → Flushed update order q m db
          → Distinct m
          → let (m', db') = flush update order m db in
            (m' ≡ []) × (spent q db' ≡ spent q db +ℤ cents_of (lookup q m))
      unfolding flush lookup
      flush-spent q [] db k w h = (refl, sym (add-nothing (spent q db)))
      flush-spent q (e ∷ m) db k w h = (
        refl,
        write_all-spent q (order (e ∷ m)) db k w (iteration.once (e ∷ m) h)
            ∙ ap (λ o. spent q db +ℤ cents_of o) (iteration.same q (e ∷ m)),
      )

      -- If each tenant is pending once, the database knows the tenant, its update in this flush
      -- reports no error, and less than a cent, not below zero, is pending for it, the flush
      -- charges the tenant nothing and drops what was pending for it.
      pub flush-small_lost :
          (laws : IsIeee F) (q : String) (m : Map F) (db : D) {cost : F}
          → known q db
          → Flushed update order q m db
          → Distinct m
          → lookup q m ≡ some cost
          → NonNeg cost
          → cost ≺ one_float
          → let (m', db') = flush update order m db in
            (pending_of q m' ≡ zero_float) × (spent q db' ≡ spent q db)
      unfolding pending_of lookup
      flush-small_lost laws q m db {cost} k w h here low high =
          let (empty, charged) = flush-spent q m db k w h in
          (
            ap (pending_of q) empty,
            charged
                ∙ ap (λ o. spent q db +ℤ cents_of o) here
                ∙ ap (λ c. spent q db +ℤ c) (laws.trunc_below cost low high)
                ∙ add-nothing (spent q db),
          )

    -- If every update fails, a flush charges nobody and still drops everything that was pending:
    -- the costs are not tried again.
    pub flush-failed_lost :
        IsLedger update spent known
        → ((id : String) (cents : ℤ) (db : D) → (x : X) × ((update id cents db).1 ≡ some x))
        → (q : String) (m : Map F) (db : D)
        → let (m', db') = flush update order m db in (m' ≡ []) × (spent q db' ≡ spent q db)
    unfolding flush write_all
    flush-failed_lost ledger fails q [] db = (refl, refl)
    flush-failed_lost ledger fails q (e ∷ m) db = (refl, go (order (e ∷ m)) db)
      where
        go : (l : Map F) (db : D) → spent q (write_all update order l db) ≡ spent q db
        go [] db = refl
        go ((id, cost) ∷ l) db =
            let (x, failed) = fails id (d.trunc cost) db in
            go l (update id (d.trunc cost) db).0 ∙ ledger.keeps id q (d.trunc cost) db x failed
