-- ===== src/Analytics/Query/Hourly.antt =====
-- The list of hourly rows: `ListRouteStatsHourly` of internal/analytics/usecase/query_stats.go and of
-- infrastructure/postgres/stats.go. `text_le` is the collation of the database. Rows that the ORDER BY
-- does not tell apart come in the order of the table here; Postgres promises none.
pub mod Page
use edge_guard.Base.{
  ℕ, zero, suc, ◌+◌, ◌≤◌, ℤ, pos, pos_part, int_lt, int_le, Bool, true, false, not, ◌&&◌, ◌||◌,
  Option, none, some, List, [], ◌∷◌, if◌then◌else◌, ◌==◌, ltb, leb, length, take, ok, err, opaque,
  sentinel, in_context, ◌>>=◌, ◌>>◌, guard, All, Bool-cases, Option-cases, Result-cases, ◌≡◌, ◌⊎◌,
  refl, arith, inl, inr, map,
}
use edge_guard.Base.Time.{Time}
use edge_guard.Text.{Text, ◌≟◌, codes}
use edge_guard.Analytics.Store.{Outcome, invalid_limit, Key, Counts, StatsRow, no_fault}
use edge_guard.Analytics.Query.{
  RouteStatsFilter, normalize_stats_filter, selects, where_clause, Summary, summary_of,
}

-- ORDER BY bucket_start ASC, route_name ASC, method ASC
unfoldable pub row_le : (Text → Text → Bool) → Key → Key → Bool
row_le text_le a b =
    ltb a.bucket_start b.bucket_start
    || a.bucket_start == b.bucket_start
      && (text_le a.route_name b.route_name && not (text_le b.route_name a.route_name)
          || text_le a.route_name b.route_name
            && text_le b.route_name a.route_name
            && text_le a.method b.method)

unfoldable pub place : (Text → Text → Bool) → StatsRow → List StatsRow → List StatsRow
unfolding row_le
place text_le (k, c) [] = (k, c) ∷ []
place text_le (k, c) ((l, d) ∷ rows) =
    let rest = place text_le (k, c) rows in
    if row_le text_le k l then (k, c) ∷ (l, d) ∷ rows else (l, d) ∷ rest

unfoldable pub order_by : (Text → Text → Bool) → List StatsRow → List StatsRow
unfolding place
order_by text_le [] = []
order_by text_le (row ∷ rows) = place text_le row (order_by text_le rows)

-- A row of the answer: the columns of the key, and what a summary has.
abbrev pub hourly_item : StatsRow → Key × Summary
hourly_item (k, c) = (k, summary_of c)

module _ (text_le : Text → Text → Bool) (cast_uuid : Text → Option Text) where
  -- Repository.ListRouteStatsHourly
  unfoldable pub query_hourly :
      Option Text → RouteStatsFilter → ℕ → List StatsRow → Outcome (List (Key × Summary))
  unfolding order_by where_clause summary_of
  query_hourly fault filter limit rows = in_context "query hourly route stats" (
      no_fault fault >> elim (cast_uuid filter.project_id) [
        | none ↦ err (opaque (codes "invalid input syntax for type uuid"))
        | some project_id ↦
            ok (
              map hourly_item (take limit (order_by text_le (where_clause project_id filter rows))))
      ])

  -- ListRouteStatsHourly
  unfoldable pub list_route_stats_hourly :
      (Text → Text)
      → Option Text
      → RouteStatsFilter
      → ℤ
      → List StatsRow
      → Outcome (List (Key × Summary))
  unfolding normalize_stats_filter query_hourly
  list_route_stats_hourly unicode fault given limit rows = do
    filter ← normalize_stats_filter unicode given
    guard (int_lt (pos 0) limit && int_le limit (pos 1000)) (sentinel invalid_limit)
    in_context "list hourly route stats" (query_hourly fault filter (pos_part limit) rows)
