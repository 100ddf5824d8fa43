-- ===== src/Analytics/Http.antt =====
-- internal/analytics/delivery/http/v1/analytics.go: the two handlers on a request that Echo has parsed.
-- `parse_rfc3339` is `time.Parse(time.RFC3339, …)` in UTC, `atoi` is `strconv.Atoi`. The bodies keep the
-- error where the code sends its text, and the interval where it formats it.
pub mod Statuses
use edge_guard.Base.{
  ℕ, ◌*◌, ◌+◌, ◌-◌, ℤ, pos, negsuc, int_lt, int_le, Bool, true, false, not, ◌&&◌, ◌||◌, Option,
  none, some, List, is_empty, Result, ok, err, Error, sentinel, opaque, is, ◌>>=◌, ◌>>◌,
  if◌then◌else◌,
}
use edge_guard.Base.Time.{Time, hour, add}
use edge_guard.Text.{Text, codes, trim_space, to_upper}
use edge_guard.Analytics.Store.{
  Outcome, Sentinel, invalid_gateway_access_event, invalid_project_id, invalid_time_range,
  analytics_range_too_large, invalid_limit, Key, StatsRow,
}
use edge_guard.Analytics.Query.{RouteStatsFilter, Summary, get_route_stats_summary}
use edge_guard.Analytics.Query.Hourly.{list_route_stats_hourly}

pub record Ports : Type 0 where
  pub parse_rfc3339 : Text → Option Time
  pub atoi : Text → Option ℤ
  pub unicode : Text → Text
  pub text_le : Text → Text → Bool
  pub cast_uuid : Text → Option Text

-- The parameters of the path and of the query; one that is not given is empty.
pub record Request : Type 0 where
  pub project_id : Text
  pub from : Text
  pub to : Text
  pub route_name : Text
  pub method : Text
  pub limit : Text

pub data Response (A : Type 0) : Type 0 where
  success : RouteStatsFilter → A → Response A
  bad_request : Error Sentinel → Response A
  internal_error : Response A

abbrev pub default_range : ℕ
default_range = 24 * hour

unfoldable pub parse_time : (Text → Option Time) → Text → Time → Outcome Time
parse_time parse given fallback =
    let value = trim_space given in
    if is_empty value then ok fallback else elim (parse value) [
      | none ↦ err (opaque (codes "from and to must use RFC3339 format"))
      | some t ↦ ok t
    ]

unfoldable pub parse_limit : (Text → Option ℤ) → Text → Outcome ℤ
parse_limit atoi given =
    let value = trim_space given in
    if is_empty value then ok (pos 100) else elim (atoi value) [
      | none ↦ err (sentinel invalid_limit)
      | some limit ↦
          if int_le limit (pos 0) || int_lt (pos 1000) limit
          then err (sentinel invalid_limit)
          else ok limit
    ]

abbrev names_client_error : Sentinel → Bool
names_client_error invalid_gateway_access_event = false
names_client_error _ = true

-- one of the four that `handleError` asks for
unfoldable pub is_client_error : Error Sentinel → Bool
unfolding is
is_client_error e = is names_client_error e

-- handleError
unfoldable pub handle_error : {A : Type 0} → Error Sentinel → Response A
unfolding is_client_error
handle_error e = if is_client_error e then bad_request e else internal_error

module _ (p : Ports) (now : Time) where
  unfoldable pub parse_filter : Request → Outcome RouteStatsFilter
  unfolding parse_time add
  parse_filter r = do
    to ← parse_time p.parse_rfc3339 r.to now
    from ← parse_time p.parse_rfc3339 r.from (add to (negsuc (default_range - 1)))
    ok (record {
      project_id = trim_space r.project_id;
      from = from;
      to = to;
      route_name = trim_space r.route_name;
      method = to_upper p.unicode (trim_space r.method);
    })

  abbrev respond : {A : Type 0} → RouteStatsFilter → Outcome A → Response A
  respond filter (ok a) = success filter a
  respond filter (err e) = handle_error e

  unfoldable pub summary : Option Text → Request → List StatsRow → Response Summary
  unfolding parse_filter handle_error get_route_stats_summary
  summary fault r rows = elim (parse_filter r) [
    | err e ↦ bad_request e
    | ok filter ↦ respond filter (get_route_stats_summary p.cast_uuid p.unicode fault filter rows)
  ]

  unfoldable pub hourly : Option Text → Request → List StatsRow → Response (List (Key × Summary))
  unfolding parse_filter parse_limit handle_error list_route_stats_hourly
  hourly fault r rows = elim (parse_filter r) [
    | err e ↦ bad_request e
    | ok filter ↦ elim (parse_limit p.atoi r.limit) [
      | err e ↦ bad_request e
      | ok limit ↦
          respond filter
            (list_route_stats_hourly p.text_le p.cast_uuid p.unicode fault filter limit rows)
    ]
  ]
