-- ===== src/ControlPlane/Domain/Checked.antt =====
-- What holds of the values that the constructors let through.
use edge_guard.Base.{◌≡◌, ℤ, pos, ◌<ℤ◌, Bool, true, false, ◌⊎◌, ok, arith, is_empty}
use edge_guard.Text.{Text, codes, trim_space, has_prefix}
use edge_guard.Text.Trim.{trim_space-trim_space}
use edge_guard.ControlPlane.Domain.{RateLimitPolicy, Route, new_route}

-- The check `routes_rate_limit_policy_check` of the table of routes.
abbrev pub IsStorable : RateLimitPolicy → Type 0
IsStorable p =
    ((p.enabled ≡ false) × (p.requests ≡ pos 0) × (p.window_seconds ≡ pos 0))
    ⊎ ((p.enabled ≡ true) × (pos 0 <ℤ p.requests) × (pos 0 <ℤ p.window_seconds))

pub record IsChecked (r : Route) : Type 0 where
  pub service : is_empty r.service_id ≡ false
  pub named : is_empty r.name ≡ false
  pub name_trimmed : trim_space r.name ≡ r.name
  pub prefix_trimmed : trim_space r.path_prefix ≡ r.path_prefix
  pub rooted : has_prefix r.path_prefix (codes "/") ≡ true
  pub timeout_pos : pos 0 <ℤ r.timeout_ms
  pub storable : IsStorable r.rate_limit

-- Whatever is asked for, a route that `NewRoute` lets through has a service and a name, a prefix
-- that starts with a slash, no white space around its name and prefix, a positive timeout, and a
-- rate limit that the table's check accepts.
pub new_route-IsChecked :
    (service name prefix : Text) (strip : Bool) (timeout : ℤ) (enabled auth : Bool)
    (policy : RateLimitPolicy) (r : Route)
    → new_route service name prefix strip timeout enabled auth policy ≡ ok r
    → IsChecked r
unfolding new_route
new_route-IsChecked service name prefix strip timeout enabled auth policy r h =
    ground (arith, trim_space-trim_space name, trim_space-trim_space prefix)
