-- ===== src/Analytics/Query.antt =====
-- The queries on the statistics: internal/analytics/usecase/query_stats.go,
-- infrastructure/postgres/stats.go, and the parsing of a request in delivery/http/v1/analytics.go. An
-- average, a `double precision`, is kept as its dividend and its divisor.
pub mod Totals
pub mod Interval
pub mod Scan
pub mod Hourly
use edge_guard.Base.{
  ℕ, zero, suc, ◌+◌, ◌*◌, ◌^◌, ◌≤◌, ℤ, pos, negsuc, int_le, int_lt, Bool, true, false, not, ◌&&◌,
  ◌||◌, Option, none, some, List, [], ◌∷◌, if◌then◌else◌, ◌==◌, ltb, leb, is_empty, take, Result,
  ok, err, Error, wrap, opaque, sentinel, in_context, ◌>>=◌, ◌>>◌, guard, is,
}
use edge_guard.Base.Time.{Time, hour, truncate, is_zero, before, add, sub}
use edge_guard.Text.{Text, ◌≟◌, codes, trim_space, to_upper}
use edge_guard.Text.Format.{is_canonical_uuid}
use edge_guard.Analytics.Store.{
  Outcome, Sentinel, invalid_project_id, invalid_time_range, analytics_range_too_large,
  invalid_limit, invalid_gateway_access_event, Key, Counts, StatsRow, greatest, no_fault,
}

pub record RouteStatsFilter : Type 0 where
  pub project_id : Text
  pub from : Time
  pub to : Time
  pub route_name : Text
  pub method : Text

abbrev pub max_analytics_range : ℕ
max_analytics_range = 90 * (24 * hour)

unfoldable pub ceil_hour : Time → Time
unfolding truncate
ceil_hour value =
    let truncated = truncate value hour in
    if value == truncated then truncated else truncated + hour

unfoldable pub normalize_stats_filter : (Text → Text) → RouteStatsFilter → Outcome RouteStatsFilter
unfolding ceil_hour sub
normalize_stats_filter unicode filter = do
  let project_id = trim_space filter.project_id
  guard (is_canonical_uuid project_id) (sentinel invalid_project_id)
  guard (not (is_zero filter.from || is_zero filter.to || not (before filter.from filter.to)))
      (sentinel invalid_time_range)
  guard (int_le (sub filter.to filter.from) (pos max_analytics_range))
      (sentinel analytics_range_too_large)
  ok (record {
    project_id = project_id;
    from = truncate filter.from hour;
    to = ceil_hour filter.to;
    route_name = trim_space filter.route_name;
    method = to_upper unicode (trim_space filter.method);
  })

-- What a query returns of some counts: the average's dividend and divisor in place of the average.
pub record Summary : Type 0 where
  pub request_count : ℕ
  pub status_1xx : ℕ
  pub status_2xx : ℕ
  pub status_3xx : ℕ
  pub status_4xx : ℕ
  pub status_5xx : ℕ
  pub rate_limited : ℕ
  pub average_duration_ms : ℕ × ℕ
  pub max_duration_ms : ℕ
  pub total_response_bytes : ℕ

-- SUM and MAX over the rows, 0 if there are none.
unfoldable pub sum_of : (Counts → ℕ) → List StatsRow → ℕ
sum_of f [] = 0
sum_of f ((k, c) ∷ rows) = sum_of f rows + f c

unfoldable pub max_of : (Counts → ℕ) → List StatsRow → ℕ
max_of f [] = 0
max_of f ((k, c) ∷ rows) = greatest (max_of f rows) (f c)

-- A division whose divisor is 0 gives 0.
abbrev average : ℕ → ℕ → ℕ × ℕ
average total zero = (0, 1)
average total (suc n) = (total, suc n)

-- The sums and the maximum that the query is made of.
unfoldable pub totals : List StatsRow → Counts
unfolding sum_of max_of
totals rows = record {
  request_count = sum_of (λ c. c.request_count) rows;
  status_1xx = sum_of (λ c. c.status_1xx) rows;
  status_2xx = sum_of (λ c. c.status_2xx) rows;
  status_3xx = sum_of (λ c. c.status_3xx) rows;
  status_4xx = sum_of (λ c. c.status_4xx) rows;
  status_5xx = sum_of (λ c. c.status_5xx) rows;
  rate_limited = sum_of (λ c. c.rate_limited) rows;
  total_duration_ms = sum_of (λ c. c.total_duration_ms) rows;
  max_duration_ms = max_of (λ c. c.max_duration_ms) rows;
  total_response_bytes = sum_of (λ c. c.total_response_bytes) rows;
}

unfoldable pub summary_of : Counts → Summary
summary_of c = record {
  request_count = c.request_count;
  status_1xx = c.status_1xx;
  status_2xx = c.status_2xx;
  status_3xx = c.status_3xx;
  status_4xx = c.status_4xx;
  status_5xx = c.status_5xx;
  rate_limited = c.rate_limited;
  average_duration_ms = average c.total_duration_ms c.request_count;
  max_duration_ms = c.max_duration_ms;
  total_response_bytes = c.total_response_bytes;
}

-- the WHERE clause, the project's id cast
unfoldable pub selects : Text → RouteStatsFilter → Key → Bool
selects project_id filter k =
    k.project_id ≟ project_id
    && leb filter.from k.bucket_start
    && ltb k.bucket_start filter.to
    && (is_empty filter.route_name || k.route_name ≟ filter.route_name)
    && (is_empty filter.method || k.method ≟ filter.method)

unfoldable pub where_clause : Text → RouteStatsFilter → List StatsRow → List StatsRow
unfolding selects
where_clause project_id filter [] = []
where_clause project_id filter ((k, c) ∷ rows) =
    let rest = where_clause project_id filter rows in
    if selects project_id filter k then (k, c) ∷ rest else rest

-- `Scan` into fields of type int64: a SUM, which the database computes without bounds, is an error if
-- it leaves their range. The sum of the durations is only divided in the database.
unfoldable pub scans : Counts → Bool
scans c =
    ltb c.request_count (2 ^ 63)
    && ltb c.status_1xx (2 ^ 63)
    && ltb c.status_2xx (2 ^ 63)
    && ltb c.status_3xx (2 ^ 63)
    && ltb c.status_4xx (2 ^ 63)
    && ltb c.status_5xx (2 ^ 63)
    && ltb c.rate_limited (2 ^ 63)
    && ltb c.max_duration_ms (2 ^ 63)
    && ltb c.total_response_bytes (2 ^ 63)

unfoldable pub scan : Counts → Outcome Summary
unfolding scans summary_of
scan c = guard (scans c) (opaque (codes "cannot scan numeric into int64")) >> ok (summary_of c)

module _ (cast_uuid : Text → Option Text) where
  -- Repository.GetRouteStatsSummary
  unfoldable pub query_summary : Option Text → RouteStatsFilter → List StatsRow → Outcome Summary
  unfolding where_clause totals scan
  query_summary fault filter rows = in_context "query route stats summary" (
      no_fault fault >> elim (cast_uuid filter.project_id) [
        | none ↦ err (opaque (codes "invalid input syntax for type uuid"))
        | some project_id ↦ scan (totals (where_clause project_id filter rows))
      ])

  -- GetRouteStatsSummary
  unfoldable pub get_route_stats_summary :
      (Text → Text) → Option Text → RouteStatsFilter → List StatsRow → Outcome Summary
  unfolding normalize_stats_filter query_summary
  get_route_stats_summary unicode fault given rows = do
    filter ← normalize_stats_filter unicode given
    in_context "get route stats summary" (query_summary fault filter rows)
