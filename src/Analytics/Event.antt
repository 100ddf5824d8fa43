-- ===== src/Analytics/Event.antt =====
-- internal/platform/events/gateway_access.go: the events that the gateway publishes and the analytics
-- service stores. `quote` is `%q`.
use edge_guard.Base.{ℤ, pos, int_le, Bool, not, ◌&&◌, ◌||◌, ◌++◌, is_empty, Result, ok, ◌>>◌, guard}
use edge_guard.Base.Time.{Time, is_zero}
use edge_guard.Text.{Text, codes, ◌≟◌, trim_space}
use edge_guard.Text.Format.{decimal, is_canonical_uuid}

abbrev pub gateway_access_event_schema_version : ℤ
gateway_access_event_schema_version = pos 1

abbrev pub client_type_api_key : Text
client_type_api_key = codes "api_key"

abbrev pub client_type_ip : Text
client_type_ip = codes "ip"

pub record GatewayAccessEvent : Type 0 where
  pub schema_version : ℤ
  pub event_id : Text
  pub occurred_at : Time
  pub request_id : Text
  pub project_id : Text
  pub route_name : Text
  pub route_path_prefix : Text
  pub method : Text
  pub request_path : Text
  pub status_code : ℤ
  pub duration_ms : ℤ
  pub response_bytes : ℤ
  pub client_type : Text
  pub client_id : Text
  pub auth_required : Bool
  pub rate_limit_enabled : Bool
  pub rate_limited : Bool

abbrev pub int_eq : ℤ → ℤ → Bool
int_eq a b = int_le a b && int_le b a

unfoldable pub validate : (Text → Text) → GatewayAccessEvent → Result Text (Unit {0})
validate quote e = do
  guard (int_eq e.schema_version gateway_access_event_schema_version)
      (codes "unsupported gateway access event schema version: " ++ decimal e.schema_version)
  guard (not (is_empty (trim_space e.event_id))) (codes "gateway access event id is required")
  guard (not (is_zero e.occurred_at)) (codes "gateway access event occurred_at is required")
  guard (not (is_empty (trim_space e.request_id)))
      (codes "gateway access event request_id is required")
  let project_id = trim_space e.project_id
  guard (is_empty project_id || is_canonical_uuid project_id)
      (codes "invalid gateway access event project_id: " ++ quote project_id)
  guard (not (is_empty (trim_space e.method))) (codes "gateway access event method is required")
  guard (not (is_empty (trim_space e.request_path)))
      (codes "gateway access event request_path is required")
  guard (int_le (pos 100) e.status_code && int_le e.status_code (pos 599))
      (codes "invalid gateway access event status code: " ++ decimal e.status_code)
  guard (int_le (pos 0) e.duration_ms) (codes "gateway access event duration must not be negative")
  guard (int_le (pos 0) e.response_bytes)
      (codes "gateway access event response bytes must not be negative")
  guard (e.client_type ≟ client_type_api_key || e.client_type ≟ client_type_ip)
      (codes "unsupported gateway access event client type: " ++ quote e.client_type)
  guard (not (is_empty (trim_space e.client_id)))
      (codes "gateway access event client_id is required")
  ok tt
