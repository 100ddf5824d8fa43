-- ===== src/Analytics/Query/Interval.antt =====
-- The interval of a query: `normalizeStatsFilter` widens it to whole hours, by less than an hour on
-- each side.
use edge_guard.Base.{◌+◌, ◌*◌, ◌%◌, ◌≤◌, ◌<◌, ◌≡◌, arith, ok}
use edge_guard.Base.Time.{Time, hour, truncate, sub}
use edge_guard.Text.{Text}
use edge_guard.Analytics.Query.{
  RouteStatsFilter, ceil_hour, normalize_stats_filter, max_analytics_range,
}

-- The hours from `a` on and before `b`, which cover the times from `from` on and before `to`.
pub record IsWidened (from to a b : Time) : Type 0 where
  pub a_before : a ≤ from
  pub a_near : from < a + hour
  pub b_after : to ≤ b
  pub b_near : b < to + hour
  pub a_whole : a % hour ≡ 0
  pub b_whole : b % hour ≡ 0

widened : (from to : Time) → IsWidened from to (truncate from hour) (ceil_hour to)
unfolding truncate ceil_hour
widened from to = record {
  a_before = omega arith;
  a_near = omega arith;
  b_after = ground arith;
  b_near = ground arith;
  a_whole = omega arith;
  b_whole = ground arith;
}

bucket_within :
    (from to a b t : Time)
    → IsWidened from to a b
    → from ≤ t
    → t < to
    → (a ≤ truncate t hour) × (truncate t hour < b)
unfolding truncate
bucket_within from to a b t w h k =
    (omega (arith, w.a_before, w.a_whole), omega (arith, w.b_after, w.b_whole))

normalized_interval :
    (unicode : Text → Text) (given asked : RouteStatsFilter)
    → normalize_stats_filter unicode given ≡ ok asked
    → (asked.from ≡ truncate given.from hour)
      × (asked.to ≡ ceil_hour given.to)
      × (given.from < given.to)
      × (given.to ≤ given.from + max_analytics_range)
unfolding normalize_stats_filter sub
normalized_interval unicode given asked h = (ground arith, ground arith, ground arith, ground arith)

pub whole_hours :
    (unicode : Text → Text) (given asked : RouteStatsFilter)
    → normalize_stats_filter unicode given ≡ ok asked
    → (asked.from % hour ≡ 0) × (asked.to % hour ≡ 0)
whole_hours unicode given asked h =
    let (f, u, _, _) = normalized_interval unicode given asked h in
    let w = widened given.from given.to in (rw f w.a_whole, rw u w.b_whole)

-- For a filter that passes the checks: it is asked for whole hours, which reach over the given
-- interval by less than an hour on each side, which are no more than 90 days and two hours, and which
-- hold the hourly bucket of each time in the given interval.
pub normalize_stats_filter-IsWidened :
    (unicode : Text → Text) (given asked : RouteStatsFilter) (t : Time)
    → normalize_stats_filter unicode given ≡ ok asked
    → given.from ≤ t
    → t < given.to
    → IsWidened given.from given.to asked.from asked.to
      × (asked.to < asked.from + max_analytics_range + 2 * hour)
      × (asked.from ≤ truncate t hour)
      × (truncate t hour < asked.to)
normalize_stats_filter-IsWidened unicode given asked t h k l =
    let (f, u, ordered, short) = normalized_interval unicode given asked h in
    let w : IsWidened given.from given.to asked.from asked.to =
      rw (f, u) (widened given.from given.to) in
    let (first, last) = bucket_within given.from given.to asked.from asked.to t w k l in
    (w, omega (arith, w.a_near, w.b_near), first, last)
