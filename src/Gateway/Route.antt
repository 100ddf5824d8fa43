-- ===== src/Gateway/Route.antt =====
-- internal/gateway/domain: routes, policies, principals and the sentinel errors. A path prefix, a
-- path and a URL are bytes; a duration is a number of nanoseconds in an `int64`.
pub mod Laws
use edge_guard.Base.{ℕ, ℤ, Bool, true, false, not, ◌||◌, [], ◌∷◌, ◌++◌, if◌then◌else◌, is_empty}
use edge_guard.Text.{Text, codes, ◌≟◌, has_prefix, trim_prefix, trim_right}

pub data Sentinel : Type 0 where
  route_not_found invalid_route api_key_required invalid_api_key api_key_project_mismatch : Sentinel
  auth_service_unavailable api_key_validator_not_configured rate_limiter_not_configured : Sentinel
  invalid_rate_limit_policy invalid_rate_limit_client route_source_not_configured : Sentinel

pub record RateLimitPolicy : Type 0 where
  pub enabled : Bool
  pub limit : ℤ
  pub window : ℤ

pub record RateLimitRequest : Type 0 where
  pub route_key : Text
  pub client_id : Text
  pub policy : RateLimitPolicy

-- Times are nanoseconds since the start of year 1.
pub record RateLimitResult : Type 0 where
  pub enabled : Bool
  pub allowed : Bool
  pub limit : ℤ
  pub remaining : ℤ
  pub reset_at : ℕ
  pub retry_after : ℤ

pub record ApiKeyPrincipal : Type 0 where
  pub api_key_id : Text
  pub project_id : Text

pub record Route : Type 0 where
  pub project_id : Text
  pub name : Text
  pub path_prefix : Text
  pub upstream_url : Text
  pub strip_prefix : Bool
  pub timeout : ℤ
  pub auth_required : Bool
  pub rate_limit : RateLimitPolicy

abbrev pub slash : ℕ
slash = b'/'

unfoldable pub matches : Route → Text → Bool
unfolding ◌≟◌ has_prefix trim_right
matches r path =
    if r.path_prefix ≟ slash ∷ []
    then true
    else let prefix = trim_right r.path_prefix slash in
      path ≟ prefix || has_prefix path (prefix ++ slash ∷ [])

abbrev with_slash : Text → Text
with_slash path =
    if is_empty path
    then slash ∷ []
    else if not (has_prefix path (slash ∷ []))
    then slash ∷ path
    else path

unfoldable pub upstream_path : Route → Text → Text
unfolding has_prefix trim_prefix trim_right
upstream_path r original_path =
    if not r.strip_prefix
    then original_path
    else with_slash (trim_prefix original_path (trim_right r.path_prefix slash))
