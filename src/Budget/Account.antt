-- ===== src/Budget/Account.antt =====
-- The processor's contract for one tenant, internal/db/processor.go: an account to which costs are
-- added, and which is settled in whole cents now and then, unless the database fails.
use mathlib.Core.Path.{subst}
use mathlib.Core.Option.{none-ne-some}
use text.Mathlib.TextPositions.{eq_refl}
use kenbun.Prelude.{
  String, ◌≡◌, refl, sym, ◌∙◌, ap, ◌⊎◌, inl, inr, Bool-cases, Option-cases, Option, none, some,
  List, [], ◌∷◌, ◌++◌, ℤ, ◌+ℤ◌, if◌then◌else◌, ◌==◌, eq_iff,
}
use kenbun.Prelude.Map.{Map, lookup}
use kenbun.Float.{Float, zero_float}
use kenbun.Logging.{LogEvent}
use kenbun.Budget.{UpdateSpend, Event, done, tick, message, pending_of, add_cost, write_all, flush}
use kenbun.Budget.Pending.{Distinct, pending-add_cost}
use kenbun.Budget.Ledger.{IsLedger, IsIteration, update-other}
use kenbun.Budget.Faults.{Written, Flushed}

-- what is owed and not charged yet, and what is charged
pub record Account (F : Type 0) : Type 0 where
  pub owed : F
  pub spent : ℤ

-- A cost is owed; what is owed is charged; what is owed is forgotten.
pub data Deal (F : Type 0) : Type 0 where
  owe : F → Deal F
  settle : Deal F
  forget : Deal F

module _ {F : Type 0} where
  abbrev pub owe_costs : List (Deal F) → List F
  owe_costs [] = []
  owe_costs (owe cost ∷ deals) = cost ∷ owe_costs deals
  owe_costs (settle ∷ deals) = owe_costs deals
  owe_costs (forget ∷ deals) = owe_costs deals

  abbrev pub Lossless : List (Deal F) → Type 0
  Lossless [] = Unit
  Lossless (owe cost ∷ deals) = Lossless deals
  Lossless (settle ∷ deals) = Lossless deals
  Lossless (forget ∷ deals) = ⊥

  -- The costs of a tenant among the events up to the end, in their order.
  abbrev pub costs_for : String → List (Event F) → List F
  costs_for q [] = []
  costs_for q (done ∷ events) = []
  costs_for q (tick ∷ events) = costs_for q events
  costs_for q (message none ∷ events) = costs_for q events
  costs_for q (message (some e) ∷ events) =
      if e.tenant_id == q then e.cost_cents ∷ costs_for q events else costs_for q events

  owe_costs-append : (a b : List (Deal F)) → owe_costs (a ++ b) ≡ owe_costs a ++ owe_costs b
  owe_costs-append [] b = refl
  owe_costs-append (owe cost ∷ a) b = ap (λ l. cost ∷ l) (owe_costs-append a b)
  owe_costs-append (settle ∷ a) b = owe_costs-append a b
  owe_costs-append (forget ∷ a) b = owe_costs-append a b

  Lossless-append : (a b : List (Deal F)) → Lossless a → Lossless b → Lossless (a ++ b)
  Lossless-append [] b h k = k
  Lossless-append (owe cost ∷ a) b h k = Lossless-append a b h k
  Lossless-append (settle ∷ a) b h k = Lossless-append a b h k
  Lossless-append (forget ∷ a) b h k = absurd h

module _ {F : Type 0} ⦃d : Float F⦄ where
  abbrev pub deal : Deal F → Account F → Account F
  deal (owe cost) account = record { owed = d.add account.owed cost; spent = account.spent }
  deal settle account = record { owed = zero_float; spent = account.spent +ℤ d.trunc account.owed }
  deal forget account = record { owed = zero_float; spent = account.spent }

  abbrev pub deal_all : List (Deal F) → Account F → Account F
  deal_all [] account = account
  deal_all (x ∷ deals) account = deal_all deals (deal x account)

  deal_all-append :
      (a b : List (Deal F)) (account : Account F)
      → deal_all (a ++ b) account ≡ deal_all b (deal_all a account)
  deal_all-append [] b account = refl
  deal_all-append (x ∷ a) b account = deal_all-append a b (deal x account)

  module _ {D X : Type 0} (update : UpdateSpend D X) (order : Map F → Map F)
      (spent : String → D → ℤ) (known : String → D → Type 0) where
    -- the account that the processor's state stands for
    abbrev pub account_of : String → Map F × D → Account F
    account_of q (m, db) = record { owed = pending_of q m; spent = spent q db }

    -- Deals that lead from one account to another, with the costs that they owe; none of them
    -- forgets if the condition, that updates were fine, holds.
    abbrev pub Deals : Type 0 → Account F → Account F → List F → Type 0
    Deals Fine before after costs =
        (deals : List (Deal F)) × (after ≡ deal_all deals before)
        × (owe_costs deals ≡ costs)
        × (Fine → Lossless deals)

    pub nothing : (Fine : Type 0) (a : Account F) → Deals Fine a a []
    nothing Fine a = ([], refl, refl, λ w. tt)

    pub combine :
        {Now Later : Type 0} {a b c : Account F} {m n : List F}
        → Deals Now a b m
        → Deals Later b c n
        → Deals (Now × Later) a c (m ++ n)
    combine {a = a} {m = m} (x, p, u, f) (y, r, v, g) = (
      x ++ y,
      r ∙ ap (deal_all y) p ∙ sym (deal_all-append x y a),
      owe_costs-append x y ∙ ap (λ l. l ++ owe_costs y) u ∙ ap (λ l. m ++ l) v,
      λ w. Lossless-append x y (f w.0) (g w.1),
    )

    pub relax :
        {Fine Less : Type 0} {a b : Account F} {m : List F}
        → (Less → Fine)
        → Deals Fine a b m
        → Deals Less a b m
    relax f (x, p, u, g) = (x, p, u, λ w. g (f w))

    -- What a flush may do to a tenant's charge: with nothing pending, nothing; otherwise it charges
    -- the whole cents of what is pending, or nothing if the condition does not hold.
    abbrev Charged : Type 0 → String → Option F → D → D → Type 0
    Charged Fine q none db db' = spent q db' ≡ spent q db
    Charged Fine q (some cost) db db' =
        (spent q db' ≡ spent q db +ℤ d.trunc cost) ⊎ ((spent q db' ≡ spent q db) × (¬ Fine))

    Charged-later :
        {Later Fine : Type 0} (q : String) (o : Option F) (a b c : D)
        → (Fine → Later)
        → spent q b ≡ spent q a
        → Charged Later q o b c
        → Charged Fine q o a c
    Charged-later q none a b c f e h = h ∙ e
    Charged-later q (some cost) a b c f e (inl h) = inl (h ∙ ap (λ s. s +ℤ d.trunc cost) e)
    Charged-later q (some cost) a b c f e (inr (h, k)) = inr (h ∙ e, λ w. k (f w))

    Charged-before :
        {Now Fine : Type 0} (q : String) (cost : F) (a b c : D)
        → (Fine → Now)
        → Charged Now q (some cost) a b
        → spent q c ≡ spent q b
        → Charged Fine q (some cost) a c
    Charged-before q cost a b c f (inl h) e = inl (e ∙ h)
    Charged-before q cost a b c f (inr (h, k)) e = inr (e ∙ h, λ w. k (f w))

    module _ (ledger : IsLedger update spent known) where
      update-Charged :
          (id : String) (cost : F) (db : D)
          → known id db
          → Charged
              ((update id (d.trunc cost) db).1 ≡ none)
              id
              (some cost)
              db
              (update id (d.trunc cost) db).0
      update-Charged id cost db k = elim (Option-cases (update id (d.trunc cost) db).1) [
        | inl works ↦
            let here = ledger.adds id id (d.trunc cost) db k works in inl (rw (eq_refl id) at here)
        | inr (x, fails) ↦
            inr (ledger.keeps id id (d.trunc cost) db x fails, λ w. none-ne-some x (sym w ∙ fails))
      ]

      write_all-Charged :
          (q : String) (m : Map F) (db : D)
          → known q db
          → Distinct m
          → Charged (Written update order q m db) q (lookup q m) db (write_all update order m db)
      unfolding write_all lookup
      write_all-Charged q [] db k h = refl
      write_all-Charged q ((id, cost) ∷ m) db k (new, rest) =
          let db' = (update id (d.trunc cost) db).0 in
          let last = write_all update order m db' in
          let later = write_all-Charged q m db' (ledger.stays id q (d.trunc cost) db k) rest in
          elim (Bool-cases (id == q)) [
            | inl hit ↦
                let same = (eq_iff id q).0 hit in
                let gone = subst (λ r. lookup r m ≡ none) same new in
                let none_later : spent q last ≡ spent q db' = rw gone at later in
                let now : Charged ((update id (d.trunc cost) db).1 ≡ none) q (some cost) db db' =
                  subst
                    (λ r.
                      known r db
                      → Charged ((update id (d.trunc cost) db).1 ≡ none) r (some cost) db db')
                    same (update-Charged id cost db) k in
                rw hit (Charged-before q cost db db' last (λ w. w.0) now none_later)
            | inr miss ↦ rw miss (
                Charged-later q (lookup q m) db db' last (λ w. w.1)
                  (update-other update spent known ledger id q (d.trunc cost) db k miss) later)
          ]

      write_all-known :
          (q : String) (m : Map F) (db : D) → known q db → known q (write_all update order m db)
      unfolding write_all
      write_all-known q [] db k = k
      write_all-known q ((id, cost) ∷ m) db k =
          write_all-known q m (update id (d.trunc cost) db).0
            (ledger.stays id q (d.trunc cost) db k)

      settled :
          {Fine : Type 0} (q : String) (o : Option F) (db db' : D)
          → Charged Fine q o db db'
          → Deals Fine
              (record {
                owed = elim o [ none ↦ zero_float | some cost ↦ cost ];
                spent = spent q db;
              })
              (record { owed = zero_float; spent = spent q db' })
              []
      settled q none db db' h =
          ([], ap (λ s. record { owed = zero_float; spent = s }) h, refl, λ w. tt)
      settled q (some cost) db db' (inl h) =
          (settle ∷ [], ap (λ s. record { owed = zero_float; spent = s }) h, refl, λ w. tt)
      settled q (some cost) db db' (inr (h, fails)) =
          (forget ∷ [], ap (λ s. record { owed = zero_float; spent = s }) h, refl, fails)

      module _ (iteration : IsIteration order) where
        pub flush-Deals :
            (q : String) (m : Map F) (db : D)
            → known q db
            → Distinct m
            → Deals
                (Flushed update order q m db)
                (account_of q (m, db))
                (account_of q (flush update order m db))
                []
        unfolding flush pending_of lookup
        flush-Deals q [] db k h = nothing Unit (record { owed = zero_float; spent = spent q db })
        flush-Deals q (e ∷ m) db k h =
            let done = write_all-Charged q (order (e ∷ m)) db k (iteration.once (e ∷ m) h) in
            settled q (lookup q (e ∷ m)) db (write_all update order (order (e ∷ m)) db) (
              subst
                (λ o.
                  Charged (Flushed update order q (e ∷ m) db) q o db
                    (write_all update order (order (e ∷ m)) db))
                (iteration.same q (e ∷ m)) done)

        -- What holds of the processor's state and is kept by every event.
        abbrev pub Sound : String → Map F × D → Type 0
        Sound q (m, db) = known q db × Distinct m

        pub Sound-flush :
            (q : String) (m : Map F) (db : D) → Sound q (m, db) → Sound q (flush update order m db)
        unfolding flush
        Sound-flush q [] db s = s
        Sound-flush q (e ∷ m) db (k, h) = (write_all-known q (order (e ∷ m)) db k, tt)

        pub add_cost-Deals :
            (q : String) (e : LogEvent F) (m : Map F) (db : D)
            → Deals Unit
                (account_of q (m, db))
                (account_of q (add_cost e.tenant_id e.cost_cents m, db))
                (if e.tenant_id == q then e.cost_cents ∷ [] else [])
        add_cost-Deals q e m db =
            let added = pending-add_cost e.tenant_id q e.cost_cents m in
            elim (Bool-cases (e.tenant_id == q)) [
              | inl hit ↦ rw hit (
                owe e.cost_cents ∷ [],
                ap (λ x. record { owed = x; spent = spent q db }) (rw hit at added),
                refl,
                λ w. tt,
              )
              | inr miss ↦ rw miss (
                [],
                ap (λ x. record { owed = x; spent = spent q db }) (rw miss at added),
                refl,
                λ w. tt,
              )
            ]
