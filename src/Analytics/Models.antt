-- ===== src/Analytics/Models.antt =====
-- internal/logging/clickhouse.go: the counts by model of a tenant, and how they add up.
use mathlib.Core.Path.{subst}
use kenbun.Prelude.{
  ℕ, zero, suc, String, Option, none, some, List, [], ◌∷◌, ◌==◌, length, keep, ◌≡◌, refl, ◌∙◌, ap,
  Bool-cases, inl, inr, eq_iff,
}
use kenbun.Prelude.Map.{Map, lookup, insert, lookup-insert}
use kenbun.Float.{Float}
use kenbun.Provider.{ok}
use kenbun.Logging.{LogEvent}
use kenbun.Budget.Pending.{Distinct, insert-Distinct}
use kenbun.Budget.Ledger.{IsIteration}
use kenbun.Analytics.{
  TenantStats, one_more, count_models, rows_of, fetch_models, get_tenant_stats, with_models,
}

-- a count that is left out when it is zero
abbrev pub counted : ℕ → Option ℕ
counted zero = none
counted (suc n) = some (suc n)

abbrev pub uses_of : {F : Type 0} → String → List (LogEvent F) → ℕ
uses_of model rows = length (keep (λ e. e.model == model) rows)

abbrev first_of : Option ℕ → Option ℕ → Option ℕ
first_of none b = b
first_of (some n) b = some n

one_more-counted : (n : ℕ) → some (one_more (counted n)) ≡ counted (suc n)
one_more-counted zero = refl
one_more-counted (suc n) = refl

first_of-none : (o : Option ℕ) → first_of o none ≡ o
first_of-none none = refl
first_of-none (some n) = refl

module _ {F : Type 0} where
  lookup-count_models :
      (model : String) (rows : List (LogEvent F))
      → lookup model (count_models rows) ≡ counted (uses_of model rows)
  unfolding count_models lookup
  lookup-count_models model [] = refl
  lookup-count_models model (e ∷ rows) =
      let later = lookup-count_models model rows in
      let step =
        lookup-insert e.model model (one_more (lookup e.model (count_models rows)))
          (count_models rows) in
      elim (Bool-cases (e.model == model)) [
        | inl hit ↦
            let same = (eq_iff e.model model).0 hit in
            step
            ∙ rw hit (
                ap (λ k. some (one_more (lookup k (count_models rows)))) same
                ∙ ap (λ o. some (one_more o)) later
                ∙ one_more-counted (uses_of model rows))
        | inr miss ↦ step ∙ (rw miss later)
      ]

  count_models-Distinct : (rows : List (LogEvent F)) → Distinct (count_models rows)
  unfolding count_models
  count_models-Distinct [] = tt
  count_models-Distinct (e ∷ rows) =
      insert-Distinct e.model _ (count_models rows) (count_models-Distinct rows)

module _ {F X : Type 0} ⦃d : Float F⦄ (sum_floats : List F → F) where
  -- With every group read, the map holds the groups, and under other keys what it held.
  fetch_models-lookup :
      (groups models : Map ℕ)
      → Distinct groups
      → (all : Map ℕ) × (fetch_models sum_floats {X = X} [] groups models ≡ ok all)
        × ((q : String) → lookup q all ≡ first_of (lookup q groups) (lookup q models))
  unfolding fetch_models lookup
  fetch_models-lookup [] models h = (models, refl, λ q. refl)
  fetch_models-lookup ((k, n) ∷ groups) models (new, rest) =
      let (all, done, found) = fetch_models-lookup groups (insert k n models) rest in
      (
        all,
        done,
        λ q.
            found q
            ∙ ap (first_of (lookup q groups)) (lookup-insert k q n models)
            ∙ elim (Bool-cases (k == q)) [
              | inl hit ↦
                  let gone : lookup q groups ≡ none =
                    subst (λ r. lookup r groups ≡ none) ((eq_iff k q).0 hit) new in
                  rw (gone, hit) refl
              | inr miss ↦ rw miss refl
            ],
      )

  -- If no query fails and every group is read, the statistics of a tenant are the number of its
  -- rows that the first query sees and, for each model, the number of its rows with the model that
  -- the second one sees, with no entry for a model that it did not use.
  pub tenant_stats-counted :
      (order : Map ℕ → Map ℕ) (iteration : IsIteration order) (id : String)
      (rows rows' : List (LogEvent F))
      → (stats : TenantStats F) × (get_tenant_stats sum_floats {X = X} order none none [] id rows
            rows'
          ≡ ok stats)
        × (stats.total_requests ≡ length (rows_of id rows))
        × ((model : String)
            → lookup model stats.models ≡ counted (uses_of model (rows_of id rows')))
  unfolding get_tenant_stats lookup
  tenant_stats-counted order iteration id rows rows' =
      let groups = count_models (rows_of id rows') in
      let (all, done, found) =
        fetch_models-lookup (order groups) []
          (iteration.once groups (count_models-Distinct (rows_of id rows'))) in
      (
        _,
        ap (with_models sum_floats _ _) done,
        refl,
        λ model.
            found model
            ∙ ap (λ o. first_of o none)
                (iteration.same model groups ∙ lookup-count_models model (rows_of id rows'))
            ∙ first_of-none _,
      )
