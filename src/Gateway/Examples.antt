-- ===== src/Gateway/Examples.antt =====
-- The gateway on concrete configurations.
use edge_guard.Base.{
  ℕ, ℤ, Bool, leb, ◌*◌, ◌+◌, ◌≤◌, ◌<◌, ◌/ℤ◌, is_empty, pos, ◌≡◌, refl, ◌↔◌, inr, ◌⊎◌, true, false,
  none, some, List, [], ◌∷◌, if◌then◌else◌, arith, ok, err, sentinel, All, length,
}
use edge_guard.Base.Time.{Time, second, millisecond, unix_epoch, unix_milli}
use edge_guard.Text.{Text, codes, ◌≟◌, trim_right, trim_space, has_prefix, contains}
use edge_guard.Url.{ParseUrl}
use edge_guard.Gateway.Route.{
  Route, RateLimitPolicy, RateLimitRequest, RateLimitResult, ApiKeyPrincipal, invalid_api_key,
  route_not_found, matches, upstream_path, slash,
}
use edge_guard.Gateway.Route.Laws.{IsBelow, IsRest, matches_iff, upstream_path_strips}
use edge_guard.Gateway.Usecase.{
  Outcome, resolve_route, authorize_route, check_rate_limit, no_principal,
}
use edge_guard.Gateway.Usecase.Longest.{IsLongest, resolve_route_cases}
use edge_guard.Gateway.Usecase.Checks.{IsAccepted, authorize_route-ok}
use edge_guard.Gateway.Handler.{
  Request, Ports, forwarded, proxy_request, api_key_header, get_header, del_header,
  rate_limit_client_id,
}
use edge_guard.Gateway.Handler.Admission.{IsAdmitted, proxy_request-IsAdmitted}
use edge_guard.Gateway.Limiter.{Limiter, current_window, window_end, script_ttl}
use edge_guard.Gateway.Limiter.Window.{window_bounds, same_window_iff}
use edge_guard.Gateway.Limiter.Redis.{Clock, Entry, Redis, live, raised}
use edge_guard.Text.Equal.{≟_refl}
use edge_guard.Gateway.Limiter.Script.{IsCounted, IsWithin, quota, admissions, admissions-eq-quota}
use edge_guard.Gateway.Snapshot.{
  RouteResponse, response_to_domain, to_domain, normalize_path_prefix, is_http_url,
  to_rate_limit_policy, duration,
}
use edge_guard.Gateway.Snapshot.Sound.{IsSound, HasDistinctPrefixes, response_to_domain-IsSound}

abbrev two_a_second : RateLimitPolicy
two_a_second = record { enabled = true; limit = pos 2; window = pos second }

abbrev orders : Route
orders = record {
  project_id = codes "shop";
  name = codes "orders";
  path_prefix = codes "/api/orders";
  upstream_url = codes "http://orders";
  strip_prefix = true;
  timeout = pos second;
  auth_required = true;
  rate_limit = two_a_second;
}

abbrev api : Route
api = record orders { name = codes "api"; path_prefix = codes "/api"; auth_required = false }

abbrev shop_key : ApiKeyPrincipal
shop_key = record { api_key_id = codes "k1"; project_id = codes "shop" }

abbrev validate : Text → Outcome ApiKeyPrincipal
validate key = if key ≟ codes "secret" then ok shop_key else err (sentinel invalid_api_key)

abbrev unlimited : RateLimitRequest → Outcome RateLimitResult
unlimited _ = ok (record {
  enabled = true;
  allowed = true;
  limit = pos 2;
  remaining = pos 1;
  reset_at = 0;
  retry_after = pos second;
})

abbrev ports : Ports
ports = record {
  listed = ok (api ∷ orders ∷ []);
  validator = some validate;
  limiter = some unlimited;
  split_host_port = λ _. none;
}

abbrev accept_header : Text × Text
accept_header = (codes "Accept", codes "*")

abbrev order_request : Request
order_request = record {
  method = codes "GET";
  path = codes "/api/orders/7";
  remote_addr = codes "10.0.0.1";
  headers = (api_key_header, codes "secret") ∷ accept_header ∷ [];
}

abbrev sent_upstream : Request
sent_upstream = record order_request { headers = accept_header ∷ [] }

proxied : (proxy_request ports order_request).response ≡ forwarded orders sent_upstream
unfolding proxy_request resolve_route authorize_route matches trim_space get_header check_rate_limit
    rate_limit_client_id del_header
proxied = refl

proxy_request-IsAdmitted_example : IsAdmitted ports order_request orders sent_upstream
proxy_request-IsAdmitted_example =
    proxy_request-IsAdmitted ports order_request orders sent_upstream proxied

resolve_route_cases_example :
    ((resolve_route (ok (api ∷ orders ∷ [])) (codes "/api/orders/7")
        ≡ err (sentinel route_not_found))
      × All (λ q. matches q (codes "/api/orders/7") ≡ false) (api ∷ orders ∷ []))
    ⊎ ((r : Route) × (resolve_route (ok (api ∷ orders ∷ [])) (codes "/api/orders/7") ≡ ok r)
        × IsLongest (codes "/api/orders/7") (api ∷ orders ∷ []) r)
resolve_route_cases_example = resolve_route_cases (api ∷ orders ∷ []) (codes "/api/orders/7")

accepted : authorize_route (some validate) orders (codes "secret") ≡ ok shop_key
unfolding authorize_route trim_space ◌≟◌
accepted = refl

authorize_route-ok_example :
    ((orders.auth_required ≡ false) × (shop_key ≡ no_principal))
    ⊎ IsAccepted (some validate) orders (codes "secret") shop_key
authorize_route-ok_example =
    authorize_route-ok (some validate) orders (codes "secret") shop_key accepted

matches_iff_example :
    (matches api (codes "/api/x") ≡ true)
    ↔ ((api.path_prefix ≡ slash ∷ []) ⊎ IsBelow (trim_right api.path_prefix slash) (codes "/api/x"))
matches_iff_example = matches_iff api (codes "/api/x")

abbrev start : Time
start = unix_epoch * second + 250 * millisecond

window_bounds_example :
    (start < window_end (current_window start (pos 1000)) (pos 1000))
    × (window_end (current_window start (pos 1000)) (pos 1000) ≤ start + 1000 * millisecond)
    × ((ttl : ℕ) × (script_ttl (window_end (current_window start (pos 1000)) (pos 1000)) start
          ≡ pos ttl)
        × (1 ≤ ttl)
        × (ttl ≤ 1000))
window_bounds_example = window_bounds start 1000 (omega arith) (omega arith)

same_window_iff_example :
    (current_window (start + second) (pos 1000) ≡ current_window start (pos 1000))
    ↔ (start + second < window_end (current_window start (pos 1000)) (pos 1000))
same_window_iff_example =
    same_window_iff start (start + second) 1000 (omega arith) (omega arith) (omega arith)

abbrev expiring : Entry → Clock → ℤ → Entry
expiring (some (c, _)) now (pos ttl) = some (c, some (now + ttl))
expiring _ now _ = none

abbrev set : Text → Entry → (Text → Entry) → Text → Entry
set k e s x = if x ≟ k then e else s x

abbrev is_gone : Clock → Clock → Bool
is_gone expiry now = leb expiry now

-- A server that holds a counter for each key.
abbrev server : Redis
server = record {
  State = Text → Entry;
  incr = λ s now k. let e = raised (live is_gone (s k) now) in (set k (some e) s, e.0);
  pexpire = λ s now k ttl. set k (expiring (s k) now ttl) s;
  pttl = λ s now k. pos 500;
  stored = λ s k. s k;
  gone = is_gone;
  there_before = λ expiry now h. ground arith;
  gone_after = λ expiry now h. ground arith;
  incr_returns = λ s now k. refl;
  stored-incr = λ s now k. rw (≟_refl k) refl;
  stored-pexpire = λ s now k ttl c h e. rw (≟_refl k, e) refl;
}

abbrev limiter : Limiter
limiter = record { key_prefix = codes "rl"; sha256 = λ s. s }

abbrev from_client : RateLimitRequest
from_client = record {
  route_key = codes "orders";
  client_id = codes "ip:10.0.0.1";
  policy = two_a_second;
}

is_second : pos second /ℤ millisecond ≡ pos 1000
unfolding ◌/ℤ◌
is_second = refl

is_set :
    (is_empty (trim_space (codes "orders")) ≡ false)
    × (is_empty (trim_space (codes "ip:10.0.0.1")) ≡ false)
unfolding trim_space
is_set = (refl, refl)

from_client-IsCounted : IsCounted from_client 2 1000
from_client-IsCounted = record {
  limit_is = refl;
  limit_pos = omega arith;
  window_is = is_second;
  window_pos = omega arith;
  window_set = refl;
  route_set = is_set.0;
  client_set = is_set.1;
}

-- three calls, whose scripts run later than the clock of Allow was read
abbrev calls : List (Time × Clock)
calls = (start, 250) ∷ (start + millisecond, 300) ∷ (start + 2 * millisecond, 998) ∷ []

in_window : All (λ call. IsWithin 1000 0 call.0 call.1) calls
unfolding current_window ◌/ℤ◌ unix_milli
in_window = (
  record {
    from_1970 = omega arith;
    same_window = refl;
    no_earlier = omega arith;
    early = omega arith;
  },
  (
    record {
      from_1970 = omega arith;
      same_window = refl;
      no_earlier = omega arith;
      early = omega arith;
    },
    (
      record {
        from_1970 = omega arith;
        same_window = refl;
        no_earlier = omega arith;
        early = omega arith;
      },
      tt,
    ),
  ),
)

admissions-eq-quota_example : admissions server limiter from_client calls (λ _. none) ≡ quota 2 3
admissions-eq-quota_example =
    admissions-eq-quota server limiter from_client 2 1000 0 calls (λ _. none) from_client-IsCounted
      refl in_window

no-IsRest : IsRest (codes "/x")
no-IsRest = inr (codes "x", refl)

upstream_path_strips_example : upstream_path api (codes "/api/x") ≡ codes "/x"
unfolding trim_right
upstream_path_strips_example = upstream_path_strips api (codes "/x") refl no-IsRest

abbrev parse_url : ParseUrl
parse_url text = ok (record { scheme = codes "http"; host = codes "orders"; text = text })

abbrev item : Text → RouteResponse
item prefix = record {
  project_id = codes "shop";
  name = codes "orders";
  path_prefix = prefix;
  upstream_url = codes "http://orders";
  strip_prefix = true;
  timeout_ms = pos 1000;
  auth_required = true;
  rate_limit_enabled = true;
  rate_limit_requests = pos 2;
  rate_limit_window_seconds = pos 1;
}

abbrev taken : Text → Route
taken prefix = record orders { path_prefix = prefix }

abbrev response : List RouteResponse
response = item (codes "/api") ∷ item (codes "/web/") ∷ []

taken_over :
    response_to_domain parse_url response ≡ ok (taken (codes "/api") ∷ taken (codes "/web") ∷ [])
unfolding response_to_domain to_domain trim_space normalize_path_prefix ◌≟◌ trim_right has_prefix
    is_http_url to_rate_limit_policy contains duration
taken_over = refl

response_to_domain-IsSound_example :
    (length (taken (codes "/api") ∷ taken (codes "/web") ∷ []) ≡ length response)
    × All IsSound (taken (codes "/api") ∷ taken (codes "/web") ∷ [])
    × HasDistinctPrefixes (taken (codes "/api") ∷ taken (codes "/web") ∷ [])
response_to_domain-IsSound_example =
    response_to_domain-IsSound parse_url response (taken (codes "/api") ∷ taken (codes "/web") ∷ [])
      taken_over
