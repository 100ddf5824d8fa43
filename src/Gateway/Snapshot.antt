-- ===== src/Gateway/Snapshot.antt =====
-- internal/gateway/infrastructure/controlplane/dto.go: the control plane's answer becomes a snapshot
-- of routes, or is refused as a whole.
pub mod Sound
use edge_guard.Base.{
  ℕ, ℤ, pos, int_le, Bool, true, false, not, ◌&&◌, ◌||◌, ◌*ℤ◌, int64, List, [], ◌∷◌, ◌++◌,
  if◌then◌else◌, is_empty, Result, ok, err, Error, in_context, opaque, ◌>>=◌, ◌>>◌, guard, int_lt,
}
use edge_guard.Base.Time.{millisecond, second}
use edge_guard.Url.{Url, ParseUrl, parsed}
use edge_guard.Text.{Text, codes, ◌≟◌, contains, trim_space, has_prefix, trim_right}
use edge_guard.Gateway.Route.{Sentinel, RateLimitPolicy, Route, slash}
use edge_guard.Gateway.Usecase.{Outcome, no_policy}

pub record RouteResponse : Type 0 where
  pub project_id : Text
  pub name : Text
  pub path_prefix : Text
  pub upstream_url : Text
  pub strip_prefix : Bool
  pub timeout_ms : ℤ
  pub auth_required : Bool
  pub rate_limit_enabled : Bool
  pub rate_limit_requests : ℤ
  pub rate_limit_window_seconds : ℤ

unfoldable pub normalize_path_prefix : Text → Text
normalize_path_prefix path_prefix =
    let trimmed = trim_space path_prefix in
    if trimmed ≟ slash ∷ [] then trimmed else trim_right trimmed slash

abbrev failure : Text → Error Sentinel
failure message = opaque message

-- `n != 0`
abbrev is_set : ℤ → Bool
is_set n = int_lt n (pos 0) || int_lt (pos 0) n

-- A number of units becomes a `time.Duration`, with the wrap-around of its 64 bits.
unfoldable pub duration : ℤ → ℕ → ℤ
unfolding ◌*ℤ◌ int64
duration n unit = int64 (n *ℤ unit)

unfoldable pub to_rate_limit_policy : RouteResponse → Outcome RateLimitPolicy
to_rate_limit_policy r =
    if not r.rate_limit_enabled
    then (if is_set r.rate_limit_requests || is_set r.rate_limit_window_seconds
        then err (failure (codes "disabled rate limit must have zero requests and window"))
        else ok no_policy)
    else if int_le r.rate_limit_requests (pos 0)
    then err (failure (codes "rate_limit_requests must be greater than zero"))
    else if int_le r.rate_limit_window_seconds (pos 0)
    then err (failure (codes "rate_limit_window_seconds must be greater than zero"))
    else ok (record {
      enabled = true;
      limit = r.rate_limit_requests;
      window = duration r.rate_limit_window_seconds second;
    })

unfoldable pub is_http_url : Url → Bool
is_http_url u = (u.scheme ≟ codes "http" || u.scheme ≟ codes "https") && not (is_empty u.host)

module _ (parse_url : ParseUrl) where
  unfoldable pub to_domain : RouteResponse → Outcome Route
  to_domain r = do
    let project_id = trim_space r.project_id
    guard (not (is_empty project_id)) (failure (codes "project_id is required"))
    let name = trim_space r.name
    guard (not (is_empty name)) (failure (codes "name is required"))
    let path_prefix = normalize_path_prefix r.path_prefix
    guard (not (is_empty path_prefix || not (has_prefix path_prefix (slash ∷ []))))
        (failure (codes "path prefix must start with /"))
    let upstream_url = trim_space r.upstream_url
    url ← in_context "parse upstream url" (parsed (parse_url upstream_url))
    guard (is_http_url url) (failure (codes "upstream url must be an absolute http or https url"))
    guard (int_lt (pos 0) r.timeout_ms) (failure (codes "timeout_ms must be greater than zero"))
    rate_limit ← to_rate_limit_policy r
    ok (record {
      project_id = project_id;
      name = name;
      path_prefix = path_prefix;
      upstream_url = upstream_url;
      strip_prefix = r.strip_prefix;
      timeout = duration r.timeout_ms millisecond;
      auth_required = r.auth_required;
      rate_limit = rate_limit;
    })

  -- the loop of `responseToDomain`, with the path prefixes seen so far; the map is a list of keys
  unfoldable pub routes_from : List Text → List RouteResponse → Outcome (List Route)
  routes_from seen [] = ok []
  routes_from seen (item ∷ items) = do
    route ← in_context "invalid route" (to_domain item)
    guard (not (contains route.path_prefix seen))
        (failure (codes "invalid route: duplicate path prefix"))
    routes ← routes_from (route.path_prefix ∷ seen) items
    ok (route ∷ routes)

  unfoldable pub response_to_domain : List RouteResponse → Outcome (List Route)
  unfolding routes_from
  response_to_domain response = routes_from [] response
