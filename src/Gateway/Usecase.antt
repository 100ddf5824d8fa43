-- ===== src/Gateway/Usecase.antt =====
-- internal/gateway/usecase and internal/gateway/infrastructure/memory. A port that may be nil is an
-- `Option`; a call of a port is its result, so that a request is a function of what its ports answer.
pub mod Longest
pub mod Checks
pub mod Refresh
use edge_guard.Base.{
  ℕ, ℤ, pos, negsuc, int_lt, int_le, Bool, true, false, not, ◌&&◌, ◌||◌, Option, none, some, List,
  [], ◌∷◌, ◌++◌, length, if◌then◌else◌, is_empty, Result, ok, err, Error, sentinel, wrap, is, ◌>>=◌,
}
use edge_guard.Text.{Text, trim_space, ◌≟◌}
use edge_guard.Gateway.Route.{
  Sentinel, RateLimitPolicy, RateLimitRequest, RateLimitResult, ApiKeyPrincipal, Route, matches,
  route_not_found, api_key_required, invalid_api_key, api_key_project_mismatch,
  api_key_validator_not_configured, rate_limiter_not_configured, invalid_rate_limit_policy,
  invalid_rate_limit_client, route_source_not_configured,
}

abbrev pub Outcome : Type 0 → Type 0
Outcome A = Result (Error Sentinel) A

-- `errors.Is(err, ErrInvalidAPIKey)` and its like
abbrev pub is_invalid_api_key : Sentinel → Bool
is_invalid_api_key invalid_api_key = true
is_invalid_api_key _ = false

-- the zero values of the structs
abbrev pub no_policy : RateLimitPolicy
no_policy = record { enabled = false; limit = pos 0; window = pos 0 }

abbrev no_route : Route
no_route = record {
  project_id = [];
  name = [];
  path_prefix = [];
  upstream_url = [];
  strip_prefix = false;
  timeout = pos 0;
  auth_required = false;
  rate_limit = no_policy;
}

abbrev pub no_principal : ApiKeyPrincipal
no_principal = record { api_key_id = []; project_id = [] }

abbrev pub not_limited : RateLimitResult
not_limited = record {
  enabled = false;
  allowed = true;
  limit = pos 0;
  remaining = pos 0;
  reset_at = 0;
  retry_after = pos 0;
}

-- the loop of `ResolveRoute`, over `matched` and `matchedLen`
longest_from : Text → List Route → Route → ℤ → Route × ℤ
longest_from path [] matched matched_len = (matched, matched_len)
longest_from path (route ∷ routes) matched matched_len =
    let better = matches route path && int_lt matched_len (pos (length route.path_prefix)) in
    longest_from path routes (if better then route else matched)
      (if better then pos (length route.path_prefix) else matched_len)

abbrev found_route : Route × ℤ → Outcome Route
found_route (matched, pos n) = ok matched
found_route (matched, negsuc n) = err (sentinel route_not_found)

unfoldable pub resolve_route : Outcome (List Route) → Text → Outcome Route
unfolding longest_from
resolve_route listed path = do
  routes ← listed
  found_route (longest_from path routes no_route (negsuc 0))

authorized : Route → Outcome ApiKeyPrincipal → Outcome ApiKeyPrincipal
authorized route (err e) = if is is_invalid_api_key e then err (sentinel invalid_api_key) else err e
authorized route (ok principal) =
    if not (principal.project_id ≟ route.project_id)
    then err (sentinel api_key_project_mismatch)
    else ok principal

unfoldable pub authorize_route :
    Option (Text → Outcome ApiKeyPrincipal) → Route → Text → Outcome ApiKeyPrincipal
unfolding authorized
authorize_route validator route raw_api_key =
    if not route.auth_required
    then ok no_principal
    else if is_empty (trim_space raw_api_key)
    then err (sentinel api_key_required)
    else elim validator [
      | none ↦ err (sentinel api_key_validator_not_configured)
      | some validate ↦ authorized route (validate raw_api_key)
    ]

-- the parts are joined by NUL bytes
abbrev pub route_key : Route → Text
route_key route = route.project_id ++ 0 ∷ route.name ++ 0 ∷ route.path_prefix

unfoldable pub check_rate_limit :
    Option (RateLimitRequest → Outcome RateLimitResult) → Route → Text → Outcome RateLimitResult
check_rate_limit limiter route client_id =
    if not route.rate_limit.enabled
    then ok not_limited
    else if int_le route.rate_limit.limit (pos 0) || int_le route.rate_limit.window (pos 0)
    then err (sentinel invalid_rate_limit_policy)
    else let client = trim_space client_id in
      if is_empty client then err (sentinel invalid_rate_limit_client) else elim limiter [
        | none ↦ err (sentinel rate_limiter_not_configured)
        | some allow ↦
            allow (record {
              route_key = route_key route;
              client_id = client;
              policy = route.rate_limit;
            })
      ]

-- The route repository in memory. Its lock makes a replacement one step, and a copy of a list of
-- values is the list.
pub record RouteRepository : Type 0 where
  pub routes : List Route

abbrev pub list_routes : RouteRepository → Outcome (List Route)
list_routes r = ok r.routes

abbrev pub replace_routes : RouteRepository → List Route → RouteRepository
replace_routes r routes = record r { routes = routes }

-- `RefreshRoutes`: the repository afterwards, and the number of routes or the error.
unfoldable pub refresh_routes :
    Option (Outcome (List Route)) → RouteRepository → RouteRepository × Outcome ℕ
refresh_routes none r = (r, err (sentinel route_source_not_configured))
refresh_routes (some (err e)) r = (r, err (wrap "load route snapshot" e))
refresh_routes (some (ok routes)) r = (replace_routes r routes, ok (length routes))
