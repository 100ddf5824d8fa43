-- ===== src/Gateway/Handler.antt =====
-- internal/gateway/delivery/http/v1/handlers.go, with the metadata that it leaves for the access
-- event. Headers carry their canonical names; log lines are left out.
pub mod Admission
use edge_guard.Base.{
  ℕ, ◌+◌, ◌/◌, ℤ, pos, negsuc, String, Bool, true, false, not, ◌&&◌, Option, none, some, List, [],
  ◌∷◌, ◌++◌, if◌then◌else◌, is_empty, Result, ok, err, Error, is, ltb,
}
use edge_guard.Base.Time.{second, unix}
use edge_guard.Text.{Text, codes, ◌≟◌, trim_space}
use edge_guard.Gateway.Route.{
  Sentinel, RateLimitRequest, RateLimitResult, ApiKeyPrincipal, Route, route_not_found,
  api_key_required, invalid_api_key, api_key_project_mismatch, auth_service_unavailable,
  api_key_validator_not_configured, invalid_rate_limit_policy, invalid_rate_limit_client,
}
use edge_guard.Gateway.Usecase.{Outcome, resolve_route, authorize_route, check_rate_limit}

pub record Request : Type 0 where
  pub method : Text
  pub path : Text
  pub remote_addr : Text
  pub headers : List (Text × Text)

pub record Metadata : Type 0 where
  pub project_id : Text
  pub route_name : Text
  pub route_path_prefix : Text
  pub api_key_id : Text
  pub auth_required : Bool
  pub rate_limit_enabled : Bool
  pub rate_limited : Bool

pub record RateHeaders : Type 0 where
  pub limit : ℤ
  pub remaining : ℤ
  pub reset : ℤ
  pub retry_after : Option ℕ

pub data Response : Type 0 where
  reply : ℕ → String → Response
  forwarded : Route → Request → Response

pub record Handled : Type 0 where
  pub response : Response
  pub metadata : Metadata
  pub rate_headers : Option RateHeaders

-- What the handler calls: the use case's ports, and `net.SplitHostPort`, which gives a host or an
-- error.
pub record Ports : Type 0 where
  pub listed : Outcome (List Route)
  pub validator : Option (Text → Outcome ApiKeyPrincipal)
  pub limiter : Option (RateLimitRequest → Outcome RateLimitResult)
  pub split_host_port : Text → Option Text

abbrev pub api_key_header : Text
api_key_header = codes "X-Api-Key"

-- `header.Get`: the first value, or the empty text
unfoldable pub get_header : Text → List (Text × Text) → Text
get_header name [] = []
get_header name ((n, v) ∷ rest) = if n ≟ name then v else get_header name rest

-- `header.Del`: every value goes
unfoldable pub del_header : Text → List (Text × Text) → List (Text × Text)
del_header name [] = []
del_header name ((n, v) ∷ rest) =
    let kept = del_header name rest in if n ≟ name then kept else (n, v) ∷ kept

abbrev pub no_metadata : Metadata
no_metadata = record {
  project_id = [];
  route_name = [];
  route_path_prefix = [];
  api_key_id = [];
  auth_required = false;
  rate_limit_enabled = false;
  rate_limited = false;
}

abbrev pub set_access_event_route : Route → Metadata → Metadata
set_access_event_route route m = record m {
  project_id = route.project_id;
  route_name = route.name;
  route_path_prefix = route.path_prefix;
  auth_required = route.auth_required;
  rate_limit_enabled = route.rate_limit.enabled;
}

abbrev pub set_access_event_api_key : Text → Metadata → Metadata
set_access_event_api_key id m = record m { api_key_id = id }

abbrev pub set_access_event_rate_limited : Metadata → Metadata
set_access_event_rate_limited m = record m { rate_limited = true }

unfoldable pub direct_client_ip : (Text → Option Text) → Request → Text
direct_client_ip split_host_port req =
    let remote_addr = trim_space req.remote_addr in
    if is_empty remote_addr then codes "unknown" else elim (split_host_port remote_addr) [
      | none ↦ remote_addr
      | some host ↦ if not (is_empty host) then host else remote_addr
    ]

unfoldable pub rate_limit_client_id :
    (Text → Option Text) → Request → Route → ApiKeyPrincipal → Text
unfolding direct_client_ip
rate_limit_client_id split_host_port req route principal =
    if route.auth_required && not (is_empty (trim_space principal.api_key_id))
    then codes "api-key:" ++ principal.api_key_id
    else codes "ip:" ++ direct_client_ip split_host_port req

-- `int(math.Ceil(d.Seconds()))`, and at least 1
unfoldable pub retry_after_seconds : ℤ → ℕ
retry_after_seconds (negsuc d) = 1
retry_after_seconds (pos d) =
    let seconds = (d + 999_999_999) / second in if ltb seconds 1 then 1 else seconds

unfoldable pub rate_limit_headers : RateLimitResult → RateHeaders
unfolding retry_after_seconds unix
rate_limit_headers result = record {
  limit = result.limit;
  remaining = result.remaining;
  reset = unix result.reset_at;
  retry_after = if result.allowed then none else some (retry_after_seconds result.retry_after);
}

abbrev pub is_route_not_found : Sentinel → Bool
is_route_not_found route_not_found = true
is_route_not_found _ = false

abbrev pub is_unauthorized : Sentinel → Bool
is_unauthorized api_key_required = true
is_unauthorized invalid_api_key = true
is_unauthorized _ = false

abbrev pub is_project_mismatch : Sentinel → Bool
is_project_mismatch api_key_project_mismatch = true
is_project_mismatch _ = false

abbrev pub is_auth_unavailable : Sentinel → Bool
is_auth_unavailable auth_service_unavailable = true
is_auth_unavailable api_key_validator_not_configured = true
is_auth_unavailable _ = false

abbrev pub is_invalid_rate_limit : Sentinel → Bool
is_invalid_rate_limit invalid_rate_limit_policy = true
is_invalid_rate_limit invalid_rate_limit_client = true
is_invalid_rate_limit _ = false

resolve_failed : Error Sentinel → Response
resolve_failed e =
    if is is_route_not_found e then reply 404 "route not found\n" else reply 500 "internal error\n"

authorize_failed : Error Sentinel → Response
authorize_failed e =
    if is is_unauthorized e
    then reply 401 "unauthorized\n"
    else if is is_project_mismatch e
    then reply 403 "forbidden\n"
    else if is is_auth_unavailable e
    then reply 503 "authorization service unavailable\n"
    else reply 500 "internal error\n"

-- the key is never sent upstream
forward : Route → Request → Response
forward route req = forwarded route (record req { headers = del_header api_key_header req.headers })

limited : Request → Route → Metadata → Outcome RateLimitResult → Handled
limited req route m (err e) =
    let response =
      if is is_invalid_rate_limit e then reply 500 "internal error\n" else forward route req in
    record { response = response; metadata = m; rate_headers = none }
limited req route m (ok result) =
    if not result.enabled
    then record { response = forward route req; metadata = m; rate_headers = none }
    else if not result.allowed
    then record {
      response = reply 429 "rate limit exceeded\n";
      metadata = set_access_event_rate_limited m;
      rate_headers = some (rate_limit_headers result);
    }
    else record {
      response = forward route req;
      metadata = m;
      rate_headers = some (rate_limit_headers result);
    }

abbrev pub principal_metadata : ApiKeyPrincipal → Metadata → Metadata
principal_metadata principal m =
    if not (is_empty principal.api_key_id)
    then set_access_event_api_key principal.api_key_id m
    else m

after_authorize : Ports → Request → Route → Metadata → Outcome ApiKeyPrincipal → Handled
unfolding authorize_failed limited forward
after_authorize ports req route m (err e) = record {
  response = authorize_failed e;
  metadata = m;
  rate_headers = none;
}
after_authorize ports req route m (ok principal) =
    limited req route (principal_metadata principal m) (
      check_rate_limit ports.limiter route
        (rate_limit_client_id ports.split_host_port req route principal))

after_resolve : Ports → Request → Outcome Route → Handled
unfolding after_authorize resolve_failed
after_resolve ports req (err e) = record {
  response = resolve_failed e;
  metadata = no_metadata;
  rate_headers = none;
}
after_resolve ports req (ok route) =
    after_authorize ports req route (set_access_event_route route no_metadata)
      (authorize_route ports.validator route (get_header api_key_header req.headers))

unfoldable pub proxy_request : Ports → Request → Handled
unfolding after_resolve
proxy_request ports req = after_resolve ports req (resolve_route ports.listed req.path)
