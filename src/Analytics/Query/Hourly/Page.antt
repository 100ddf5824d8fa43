-- ===== src/Analytics/Query/Hourly/Page.antt =====
-- The rows that a list query answers with.
use edge_guard.Base.{
  ℕ, zero, suc, ◌≤◌, ℤ, pos, pos_part, ◌≤ℤ◌, Bool, true, false, Option, List, [], ◌∷◌,
  if◌then◌else◌, leb, length, length-map, take, ok, All, All-map, Bool-cases, Option-cases,
  Result-cases, ◌≡◌, refl, ap, ◌∙◌, arith, inl, inr, map,
}
use edge_guard.Base.Time.{Time}
use edge_guard.Text.{Text}
use edge_guard.Analytics.Store.{Key, StatsRow}
use edge_guard.Analytics.Query.{
  RouteStatsFilter, normalize_stats_filter, selects, where_clause, Summary,
}
use edge_guard.Analytics.Query.Hourly.{
  row_le, place, order_by, hourly_item, query_hourly, list_route_stats_hourly,
}

-- Each row's hour is no later than those of the rows after it.
abbrev pub IsInOrder : List (Key × Summary) → Type 0
IsInOrder [] = Unit
IsInOrder ((k, s) ∷ items) =
    All (λ item. k.bucket_start ≤ (item.0).bucket_start) items × IsInOrder items

abbrev IsSelected : Text → RouteStatsFilter → StatsRow → Type 0
IsSelected project_id filter row = selects project_id filter row.0 ≡ true

where_clause-IsSelected :
    (project_id : Text) (filter : RouteStatsFilter) (rows : List StatsRow)
    → All (IsSelected project_id filter) (where_clause project_id filter rows)
unfolding where_clause
where_clause-IsSelected project_id filter [] = tt
where_clause-IsSelected project_id filter ((k, c) ∷ rows) =
    elim (Bool-cases (selects project_id filter k)) [
      | inl into ↦ rw into (into, where_clause-IsSelected project_id filter rows)
      | inr beside ↦ rw beside (where_clause-IsSelected project_id filter rows)
    ]

module _ (text_le : Text → Text → Bool) (P : StatsRow → Type 0) where
  place-All :
      (row : StatsRow) (rows : List StatsRow) → P row → All P rows → All P (place text_le row rows)
  unfolding place
  place-All row [] p h = (p, tt)
  place-All (k, c) ((l, d) ∷ rows) p (q, h) = elim (Bool-cases (row_le text_le k l)) [
    | inl first ↦ rw first (p, (q, h))
    | inr later ↦ rw later (q, place-All (k, c) rows p h)
  ]

  order_by-All : (rows : List StatsRow) → All P rows → All P (order_by text_le rows)
  unfolding order_by
  order_by-All [] h = tt
  order_by-All (row ∷ rows) (p, h) = place-All row (order_by text_le rows) p (order_by-All rows h)

  take-All : (n : ℕ) (rows : List StatsRow) → All P rows → All P (take n rows)
  take-All zero rows h = tt
  take-All (suc n) [] h = tt
  take-All (suc n) (row ∷ rows) (p, h) = (p, take-All n rows h)

abbrev IsAfter : Time → StatsRow → Type 0
IsAfter t row = t ≤ (row.0).bucket_start

abbrev IsSorted : List StatsRow → Type 0
IsSorted [] = Unit
IsSorted (row ∷ rows) = All (IsAfter (row.0).bucket_start) rows × IsSorted rows

row_le_bucket :
    (text_le : Text → Text → Bool) (a b : Key)
    → (row_le text_le a b ≡ true → a.bucket_start ≤ b.bucket_start)
      × (row_le text_le a b ≡ false → b.bucket_start ≤ a.bucket_start)
unfolding row_le
row_le_bucket text_le a b = (λ h. ground arith, λ h. ground arith)

place-IsSorted :
    (text_le : Text → Text → Bool) (row : StatsRow) (rows : List StatsRow)
    → IsSorted rows
    → IsSorted (place text_le row rows)
unfolding place
place-IsSorted text_le (k, c) [] h = (tt, tt)
place-IsSorted text_le (k, c) ((l, d) ∷ rows) (h, sorted) = elim (Bool-cases (row_le text_le k l)) [
  | inl first ↦
      let earlier = (row_le_bucket text_le k l).0 first in
      rw first (
        (
          earlier,
          All-map (IsAfter l.bucket_start) (IsAfter k.bucket_start) (λ row after. omega arith) rows
              h,
        ),
        (h, sorted),
      )
  | inr later ↦ rw later (
    place-All text_le (IsAfter l.bucket_start) (k, c) rows ((row_le_bucket text_le k l).1 later) h,
    place-IsSorted text_le (k, c) rows sorted,
  )
]

order_by-IsSorted :
    (text_le : Text → Text → Bool) (rows : List StatsRow) → IsSorted (order_by text_le rows)
unfolding order_by
order_by-IsSorted text_le [] = tt
order_by-IsSorted text_le (row ∷ rows) =
    place-IsSorted text_le row (order_by text_le rows) (order_by-IsSorted text_le rows)

take-IsSorted : (n : ℕ) (rows : List StatsRow) → IsSorted rows → IsSorted (take n rows)
take-IsSorted zero rows h = tt
take-IsSorted (suc n) [] h = tt
take-IsSorted (suc n) ((k, c) ∷ rows) (h, sorted) =
    (take-All (λ _ _. true) (IsAfter k.bucket_start) n rows h, take-IsSorted n rows sorted)

items-All :
    (P : Key → Type 0) (rows : List StatsRow)
    → All (λ row. P row.0) rows
    → All (λ item. P item.0) (map hourly_item rows)
items-All P [] h = tt
items-All P ((k, c) ∷ rows) (p, h) = (p, items-All P rows h)

items-IsInOrder : (rows : List StatsRow) → IsSorted rows → IsInOrder (map hourly_item rows)
items-IsInOrder [] h = tt
items-IsInOrder ((k, c) ∷ rows) (h, sorted) =
    (items-All (λ l. k.bucket_start ≤ l.bucket_start) rows h, items-IsInOrder rows sorted)

length-place :
    (text_le : Text → Text → Bool) (row : StatsRow) (rows : List StatsRow)
    → length (place text_le row rows) ≡ suc (length rows)
unfolding place
length-place text_le row [] = refl
length-place text_le (k, c) ((l, d) ∷ rows) = ground (arith, length-place text_le (k, c) rows)

length-order_by :
    (text_le : Text → Text → Bool) (rows : List StatsRow)
    → length (order_by text_le rows) ≡ length rows
unfolding order_by
length-order_by text_le [] = refl
length-order_by text_le (row ∷ rows) =
    length-place text_le row (order_by text_le rows) ∙ ap suc (length-order_by text_le rows)

length-take :
    (n : ℕ) (rows : List StatsRow)
    → length (take n rows) ≡ (if leb (length rows) n then length rows else n)
length-take zero rows = ground arith
length-take (suc n) [] = ground arith
length-take (suc n) (row ∷ rows) = ground (arith, length-take n rows)

-- The rows of the answer to a list query that succeeds: as many as the limit, which is at most 1000,
-- unless the filter selects fewer, then as many as it selects; each of them selected by the filter,
-- and the hours in ascending order.
pub list_route_stats_hourly-IsInOrder :
    (text_le : Text → Text → Bool) (cast_uuid : Text → Option Text) (unicode : Text → Text)
    (fault : Option Text) (given : RouteStatsFilter) (limit : ℤ) (rows : List StatsRow)
    (items : List (Key × Summary))
    → list_route_stats_hourly text_le cast_uuid unicode fault given limit rows ≡ ok items
    → (asked : RouteStatsFilter) × (project_id : Text) × (normalize_stats_filter unicode given
        ≡ ok asked)
      × (let found = length (where_clause project_id asked rows) in
          length items ≡ (if leb found (pos_part limit) then found else pos_part limit))
      × (limit ≤ℤ pos 1000)
      × All (λ item. selects project_id asked item.0 ≡ true) items
      × IsInOrder items
unfolding list_route_stats_hourly query_hourly
list_route_stats_hourly-IsInOrder text_le cast_uuid unicode fault given limit rows items h =
    elim (Result-cases (normalize_stats_filter unicode given)) [
      | inr (x, n) ↦ ground arith
      | inl (asked, n) ↦ elim (Option-cases (cast_uuid asked.project_id)) [
        | inl bad ↦ ground arith
        | inr (project_id, u) ↦
            let found = where_clause project_id asked rows in
            let chosen = order_by text_le found in
            let is : items ≡ map hourly_item (take (pos_part limit) chosen) = ground arith in
            (
              asked,
              project_id,
              n,
              rw is (
                  length-map hourly_item (take (pos_part limit) chosen)
                  ∙ length-take (pos_part limit) chosen
                  ∙ rw (length-order_by text_le found) refl),
              ground arith,
              rw is (
                  items-All (λ k. selects project_id asked k ≡ true) (take (pos_part limit) chosen)
                    (take-All text_le (IsSelected project_id asked) (pos_part limit) chosen (
                      order_by-All text_le (IsSelected project_id asked) found
                        (where_clause-IsSelected project_id asked rows)))),
              rw is (
                  items-IsInOrder (take (pos_part limit) chosen)
                    (take-IsSorted (pos_part limit) chosen (order_by-IsSorted text_le found))),
            )
      ]
    ]
