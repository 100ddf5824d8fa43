-- ===== src/Analytics/Http/Statuses.antt =====
-- Which requests to the analytics service fail, and how.
use edge_guard.Base.{
  ◌≡◌, refl, arith, true, false, ◌⊎◌, Option-cases, Option, none, some, List, Result-cases, inl,
  inr, ok, err, Error,
}
use edge_guard.Base.Time.{Time}
use edge_guard.Text.{Text}
use edge_guard.Text.Format.{is_canonical_uuid, is_some}
use edge_guard.Analytics.Store.{Sentinel, StatsRow}
use edge_guard.Analytics.Query.{
  RouteStatsFilter, normalize_stats_filter, scan, scans, totals, where_clause, query_summary,
  get_route_stats_summary,
}
use edge_guard.Analytics.Http.{
  Ports, Request, internal_error, is_client_error, handle_error, parse_filter, summary,
}

canonical :
    (unicode : Text → Text) (given asked : RouteStatsFilter)
    → normalize_stats_filter unicode given ≡ ok asked
    → is_canonical_uuid asked.project_id ≡ true
unfolding normalize_stats_filter
canonical unicode given asked h = ground arith

refused :
    (unicode : Text → Text) (given : RouteStatsFilter) (e : Error Sentinel)
    → normalize_stats_filter unicode given ≡ err e
    → is_client_error e ≡ true
unfolding normalize_stats_filter is_client_error
refused unicode given e h = ground arith

-- A summary answers "internal error" only when the database has a fault, or counts that do not fit
-- into int64: every request that is wrong
-- is answered by 400 before, given that the database takes the UUIDs that the code lets through.
pub summary_internal :
    (p : Ports) (now : Time) (fault : Option Text) (r : Request) (rows : List StatsRow)
    → ((id : Text) → is_canonical_uuid id ≡ true → is_some (p.cast_uuid id) ≡ true)
    → summary p now fault r rows ≡ internal_error
    → (is_some fault ≡ true)
      ⊎ ((project_id : Text) × (asked : RouteStatsFilter) × (scans
              (totals (where_clause project_id asked rows))
            ≡ false))
unfolding scan summary get_route_stats_summary query_summary handle_error
summary_internal p now (some text) r rows casts h = inl refl
summary_internal p now none r rows casts h = elim (Result-cases (parse_filter p now r)) [
  | inr (e, f) ↦ ground arith
  | inl (filter, f) ↦ elim (Result-cases (normalize_stats_filter p.unicode filter)) [
    | inr (e, n) ↦ ground (arith, refused p.unicode filter e n)
    | inl (asked, n) ↦ elim (Option-cases (p.cast_uuid asked.project_id)) [
      | inl out ↦ ground (arith, casts asked.project_id (canonical p.unicode filter asked n))
      | inr (project_id, u) ↦ inr (project_id, asked, ground arith)
    ]
  ]
]
