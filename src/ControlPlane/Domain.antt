-- ===== src/ControlPlane/Domain.antt =====
-- internal/controlplane/domain: projects, services, routes and their checks.
pub mod Checked
use edge_guard.Base.{
  ℤ, pos, int_le, Bool, true, false, not, ◌||◌, [], ◌∷◌, if◌then◌else◌, is_empty, Result, ok, err,
  Error, sentinel, ◌>>=◌, ◌>>◌, guard,
}
use edge_guard.Base.Time.{Time}
use edge_guard.Text.{Text, codes, trim_space, has_prefix}
use edge_guard.Url.{Url, ParseUrl}

pub data Sentinel : Type 0 where
  invalid_name invalid_project_id invalid_service_id invalid_upstream_url : Sentinel
  invalid_path_prefix invalid_rate_limit_requests invalid_rate_limit_window : Sentinel

abbrev pub Outcome : Type 0 → Type 0
Outcome A = Result (Error Sentinel) A

pub record Project : Type 0 where
  pub id : Text
  pub name : Text
  pub created_at : Time
  pub updated_at : Time

pub record Service : Type 0 where
  pub id : Text
  pub project_id : Text
  pub name : Text
  pub upstream_url : Text
  pub created_at : Time
  pub updated_at : Time

pub record RateLimitPolicy : Type 0 where
  pub enabled : Bool
  pub requests : ℤ
  pub window_seconds : ℤ

pub record Route : Type 0 where
  pub id : Text
  pub service_id : Text
  pub name : Text
  pub path_prefix : Text
  pub strip_prefix : Bool
  pub timeout_ms : ℤ
  pub enabled : Bool
  pub auth_required : Bool
  pub rate_limit : RateLimitPolicy
  pub created_at : Time
  pub updated_at : Time

pub record GatewayRoute : Type 0 where
  pub project_id : Text
  pub name : Text
  pub path_prefix : Text
  pub upstream_url : Text
  pub strip_prefix : Bool
  pub timeout_ms : ℤ
  pub auth_required : Bool
  pub rate_limit : RateLimitPolicy

abbrev pub default_route_timeout_ms : ℤ
default_route_timeout_ms = pos 3000

unfoldable pub new_project : Text → Outcome Project
new_project given = do
  let name = trim_space given
  guard (not (is_empty name)) (sentinel invalid_name)
  ok (record { id = []; name = name; created_at = 0; updated_at = 0 })

-- `err != nil || parsed.Scheme == "" || parsed.Host == ""`, denied
abbrev is_absolute : Result Text Url → Bool
is_absolute (err _) = false
is_absolute (ok u) = not (is_empty u.scheme || is_empty u.host)

unfoldable pub new_service : ParseUrl → Text → Text → Text → Outcome Service
new_service parse_url given_project given_name given_url = do
  let project_id = trim_space given_project
  let name = trim_space given_name
  let upstream_url = trim_space given_url
  guard (not (is_empty project_id)) (sentinel invalid_project_id)
  guard (not (is_empty name)) (sentinel invalid_name)
  guard (is_absolute (parse_url upstream_url)) (sentinel invalid_upstream_url)
  ok (record {
    id = [];
    project_id = project_id;
    name = name;
    upstream_url = upstream_url;
    created_at = 0;
    updated_at = 0;
  })

unfoldable pub new_rate_limit_policy : Bool → ℤ → ℤ → Outcome RateLimitPolicy
new_rate_limit_policy enabled requests window_seconds =
    if not enabled
    then ok (record { enabled = false; requests = pos 0; window_seconds = pos 0 })
    else if int_le requests (pos 0)
    then err (sentinel invalid_rate_limit_requests)
    else if int_le window_seconds (pos 0)
    then err (sentinel invalid_rate_limit_window)
    else ok (record { enabled = true; requests = requests; window_seconds = window_seconds })

unfoldable pub new_route :
    Text → Text → Text → Bool → ℤ → Bool → Bool → RateLimitPolicy → Outcome Route
unfolding new_rate_limit_policy
new_route given_service given_name given_prefix strip_prefix timeout_ms enabled auth_required
      policy =
    do
      let service_id = trim_space given_service
      let name = trim_space given_name
      let path_prefix = trim_space given_prefix
      guard (not (is_empty service_id)) (sentinel invalid_service_id)
      guard (not (is_empty name)) (sentinel invalid_name)
      guard (not (is_empty path_prefix || not (has_prefix path_prefix (codes "/"))))
          (sentinel invalid_path_prefix)
      rate_limit ← new_rate_limit_policy policy.enabled policy.requests policy.window_seconds
      ok (record {
        id = [];
        service_id = service_id;
        name = name;
        path_prefix = path_prefix;
        strip_prefix = strip_prefix;
        timeout_ms = if int_le timeout_ms (pos 0) then default_route_timeout_ms else timeout_ms;
        enabled = enabled;
        auth_required = auth_required;
        rate_limit = rate_limit;
        created_at = 0;
        updated_at = 0;
      })
