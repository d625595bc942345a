-- ===== src/Analytics/Charts.antt =====
-- internal/logging/clickhouse.go: the points of the chart, in the order of their hours.
use mathlib.Core.List.{append_assoc, append-nil}
use kenbun.Prelude.{
  ℕ, suc, ◌+◌, ◌*◌, ◌<◌, ltb, ◌≡◌, refl, sym, ap, ◌∙◌, Bool-cases, inl, inr, none, List, [], ◌∷◌,
  ◌++◌, map, keep, length, All, arith,
}
use kenbun.Float.{Float}
use kenbun.Provider.{ok}
use kenbun.Logging.{LogEvent}
use kenbun.Analytics.{
  ChartPoint, hour, Hours, add_row, is_recent, group_hours, chart_point, fetch_points,
  get_chart_data,
}

module _ {F : Type 0} where
  abbrev pub Ascending : List (ChartPoint F) → Type 0
  Ascending [] = Unit
  Ascending (p ∷ points) = All (λ q. p.timestamp < q.timestamp) points × Ascending points

  abbrev pub requests_of : List (ChartPoint F) → ℕ
  requests_of [] = 0
  requests_of (p ∷ points) = p.requests + requests_of points

  abbrev InOrder : Hours F → Type 0
  InOrder [] = Unit
  InOrder ((k, costs) ∷ hours) = All (λ g. k < g.0) hours × InOrder hours

  abbrev rows_in : Hours F → ℕ
  rows_in [] = 0
  rows_in ((k, costs) ∷ hours) = length costs + rows_in hours

  All-mono :
      (j k : ℕ) (hours : Hours F) → j < k → All (λ g. k < g.0) hours → All (λ g. j < g.0) hours
  All-mono j k [] l h = tt
  All-mono j k ((i, costs) ∷ hours) l (h, hs) = (omega (arith, l, h), All-mono j k hours l hs)

  add_row-All :
      (k h : ℕ) (cost : F) (hours : Hours F)
      → k < h
      → All (λ g. k < g.0) hours
      → All (λ g. k < g.0) (add_row h cost hours)
  unfolding add_row
  add_row-All k h cost [] l a = (l, tt)
  add_row-All k h cost ((j, costs) ∷ hours) l (a, b) = elim (Bool-cases (ltb h j)) [
    | inl before ↦ rw before (l, (a, b))
    | inr after ↦ elim (Bool-cases (ltb j h)) [
      | inl later ↦ rw (after, later) (a, add_row-All k h cost hours l b)
      | inr same ↦ rw (after, same) (a, b)
    ]
  ]

  add_row-InOrder :
      (h : ℕ) (cost : F) (hours : Hours F) → InOrder hours → InOrder (add_row h cost hours)
  unfolding add_row
  add_row-InOrder h cost [] o = (tt, tt)
  add_row-InOrder h cost ((j, costs) ∷ hours) (a, o) = elim (Bool-cases (ltb h j)) [
    | inl before ↦ let l : h < j = ground arith in rw before ((l, All-mono h j hours l a), (a, o))
    | inr after ↦ elim (Bool-cases (ltb j h)) [
      | inl later ↦
          rw (after, later)
            (add_row-All j h cost hours (ground arith) a, add_row-InOrder h cost hours o)
      | inr same ↦ rw (after, same) (a, o)
    ]
  ]

  rows_in-add_row :
      (h : ℕ) (cost : F) (hours : Hours F) → rows_in (add_row h cost hours) ≡ suc (rows_in hours)
  unfolding add_row
  rows_in-add_row h cost [] = omega arith
  rows_in-add_row h cost ((j, costs) ∷ hours) =
      let rest = rows_in-add_row h cost hours in
      elim (Bool-cases (ltb h j)) [
        | inl before ↦ rw before (omega arith)
        | inr after ↦ elim (Bool-cases (ltb j h)) [
          | inl later ↦ rw (after, later) (omega (arith, rest))
          | inr same ↦ rw (after, same) (omega arith)
        ]
      ]

  group_hours-InOrder : (rows : List (LogEvent F)) → InOrder (group_hours rows)
  unfolding group_hours
  group_hours-InOrder [] = tt
  group_hours-InOrder (e ∷ rows) =
      add_row-InOrder _ e.cost_cents (group_hours rows) (group_hours-InOrder rows)

  rows_in-group_hours : (rows : List (LogEvent F)) → rows_in (group_hours rows) ≡ length rows
  unfolding group_hours
  rows_in-group_hours [] = refl
  rows_in-group_hours (e ∷ rows) =
      rows_in-add_row _ e.cost_cents (group_hours rows) ∙ ap suc (rows_in-group_hours rows)

module _ {F : Type 0} ⦃d : Float F⦄ (sum_floats : List F → F) where
  Ascending-points :
      (hours : Hours F) → InOrder hours → Ascending (map (chart_point sum_floats) hours)
  Ascending-points [] o = tt
  Ascending-points ((k, costs) ∷ hours) (a, o) = (go hours a, Ascending-points hours o)
    where
      go :
          (hs : Hours F)
          → All (λ g. k < g.0) hs
          → All (λ (q : ChartPoint F). k * hour < q.timestamp) (map (chart_point sum_floats) hs)
      go [] h = tt
      go ((i, cs) ∷ hs) (l, h) = (omega (arith, l), go hs h)

  requests-points :
      (hours : Hours F) → requests_of (map (chart_point sum_floats) hours) ≡ rows_in hours
  requests-points [] = refl
  requests-points ((k, costs) ∷ hours) = ap (λ n. length costs + n) (requests-points hours)

  module _ {X : Type 0} where
    fetch_points-all :
        (rows points : List (ChartPoint F))
        → fetch_points sum_floats {X = X} [] rows points ≡ ok (points ++ rows)
    unfolding fetch_points
    fetch_points-all [] points = ap ok (sym (append-nil points))
    fetch_points-all (p ∷ rows) points =
        fetch_points-all rows (points ++ (p ∷ [])) ∙ ap ok (append_assoc points (p ∷ []) rows)

    -- If the query does not fail and every row is read, the points stand in the order of their
    -- hours, each hour once, and together they count every log row of the last 24 hours once.
    pub chart-Ascending :
        (now : ℕ) (rows : List (LogEvent F))
        → (points : List (ChartPoint F)) × (get_chart_data sum_floats {X = X} none [] now rows
            ≡ ok points)
          × Ascending points
          × (requests_of points ≡ length (keep (is_recent now) rows))
    unfolding get_chart_data
    chart-Ascending now rows =
        let hours = group_hours (keep (is_recent now) rows) in
        (
          map (chart_point sum_floats) hours,
          fetch_points-all (map (chart_point sum_floats) hours) [],
          Ascending-points hours (group_hours-InOrder (keep (is_recent now) rows)),
          requests-points hours ∙ rows_in-group_hours (keep (is_recent now) rows),
        )
