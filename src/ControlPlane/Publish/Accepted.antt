-- ===== src/ControlPlane/Publish/Accepted.antt =====
-- What the gateway makes of a route that the control plane stored.
use edge_guard.Base.{
  ◌≡◌, sym, refl, ℕ, ℤ, pos, ◌≤ℤ◌, ◌<ℤ◌, ◌*ℤ◌, ◌^◌, ◌+◌, ◌-◌, ◌<◌, ◌*◌, true, false, ◌⊎◌, inl, inr,
  ok, arith, int_lt, int64_small, negsuc, if◌then◌else◌, is_empty, [], ◌∷◌, ◌≤◌,
}
use edge_guard.Base.Time.{millisecond, second}
use edge_guard.Text.{Text, codes, ◌≟◌, trim_space, has_prefix, trim_right}
use edge_guard.Url.{Url, ParseUrl}
use native.Mathlib.Nat.{le_refl}
use edge_guard.Gateway.Route
use edge_guard.Gateway.Route.{slash}
use edge_guard.Gateway.Usecase.{no_policy}
use edge_guard.Gateway.Snapshot.{
  RouteResponse, to_domain, normalize_path_prefix, is_http_url, duration, to_rate_limit_policy,
}
use edge_guard.ControlPlane.Domain
use edge_guard.ControlPlane.Domain.{Service, RateLimitPolicy}
use edge_guard.ControlPlane.Domain.Checked.{IsChecked, IsStorable}
use edge_guard.ControlPlane.Store.{gateway_route}
use edge_guard.ControlPlane.Publish.{new_gateway_route_response}

-- A prefix that the gateway's normalization leaves as it is.
abbrev pub IsCanonical : Text → Type 0
IsCanonical p = ((p ≟ slash ∷ []) ≡ true) ⊎ (trim_right p slash ≡ p)

-- A service whose URL the gateway accepts.
pub record IsReachable (parse_url : ParseUrl) (s : Service) : Type 0 where
  pub project : is_empty s.project_id ≡ false
  pub project_trimmed : trim_space s.project_id ≡ s.project_id
  pub url_trimmed : trim_space s.upstream_url ≡ s.upstream_url
  pub url : Url
  pub parses : parse_url s.upstream_url ≡ ok url
  pub http : is_http_url url ≡ true

-- The numbers of a row, which are INTEGER.
pub record IsInRange (r : Domain.Route) : Type 0 where
  pub timeout : r.timeout_ms ≤ℤ pos (2 ^ 31 - 1)
  pub window : r.rate_limit.window_seconds ≤ℤ pos (2 ^ 31 - 1)

normalize_canonical : (p : Text) → trim_space p ≡ p → IsCanonical p → normalize_path_prefix p ≡ p
unfolding normalize_path_prefix
normalize_canonical p t (inl e) = rw t (rw e)
normalize_canonical p t (inr e) = rw t (rw e (ground arith))

product_bound : (n unit : ℕ) → n + 0 ≤ 2 ^ 31 - 1 + 0 → unit ≤ second → n * unit < 2 ^ 63
product_bound n unit h u = grind arith

-- Positive INTEGER counts of units of at most a second do not overflow a duration.
duration_in_range :
    (z : ℤ) (unit : ℕ)
    → pos 0 <ℤ z
    → z ≤ℤ pos (2 ^ 31 - 1)
    → unit ≤ second
    → duration z unit ≡ z *ℤ unit
unfolding duration
duration_in_range (pos n) unit h k u = int64_small (n * unit) (product_bound n unit k u)
duration_in_range (negsuc n) unit h k u = absurd (omega arith)

-- The policy and the route that the gateway should serve.
abbrev pub served_policy : RateLimitPolicy → Route.RateLimitPolicy
served_policy p =
    if p.enabled
    then record { enabled = true; limit = p.requests; window = p.window_seconds *ℤ second }
    else no_policy

abbrev pub served : Service → Domain.Route → Route.Route
served s r = record {
  project_id = s.project_id;
  name = r.name;
  path_prefix = r.path_prefix;
  upstream_url = s.upstream_url;
  strip_prefix = r.strip_prefix;
  timeout = r.timeout_ms *ℤ millisecond;
  auth_required = r.auth_required;
  rate_limit = served_policy r.rate_limit;
}

policy_accepted :
    (r : RouteResponse) (p : RateLimitPolicy)
    → r.rate_limit_enabled ≡ p.enabled
    → r.rate_limit_requests ≡ p.requests
    → r.rate_limit_window_seconds ≡ p.window_seconds
    → IsStorable p
    → p.window_seconds ≤ℤ pos (2 ^ 31 - 1)
    → to_rate_limit_policy r ≡ ok (served_policy p)
unfolding to_rate_limit_policy
policy_accepted r p e f g (inl (off, zero_requests, zero_window)) w =
    rw (e, f, g, off, zero_requests, zero_window)
policy_accepted r p e f g (inr (on, requests, window)) w =
    rw (e, f, g, on, duration_in_range p.window_seconds second window w (le_refl second))
      (ground arith)

rooted_nonempty : (p : Text) → has_prefix p (codes "/") ≡ true → is_empty p ≡ false
unfolding has_prefix
rooted_nonempty [] h = sym h
rooted_nonempty (c ∷ p) h = refl

int_lt_of_lt : (z : ℤ) → pos 0 <ℤ z → int_lt (pos 0) z ≡ true
int_lt_of_lt z h = ground arith

-- The gateway accepts a published route that `NewRoute` let through, unchanged but for its units of
-- time, if its numbers are in the range of INTEGER, the gateway accepts the URL of the service, and
-- the prefix is canonical.
pub to_domain-accepts :
    (parse_url : ParseUrl) (s : Service) (r : Domain.Route)
    → IsReachable parse_url s
    → IsChecked r
    → IsInRange r
    → IsCanonical r.path_prefix
    → to_domain parse_url (new_gateway_route_response (gateway_route s r)) ≡ ok (served s r)
unfolding to_domain new_gateway_route_response gateway_route
to_domain-accepts parse_url s r reach checked range canonical =
    let item = new_gateway_route_response (gateway_route s r) in
    rw (
      reach.project_trimmed,
      reach.project,
      checked.name_trimmed,
      checked.named,
      normalize_canonical r.path_prefix checked.prefix_trimmed canonical,
      checked.rooted,
      reach.url_trimmed,
      reach.parses,
      reach.http,
      policy_accepted item r.rate_limit refl refl refl checked.storable range.window,
      duration_in_range r.timeout_ms millisecond checked.timeout_pos range.timeout (omega arith),
      rooted_nonempty r.path_prefix checked.rooted,
      int_lt_of_lt r.timeout_ms checked.timeout_pos,
    )
