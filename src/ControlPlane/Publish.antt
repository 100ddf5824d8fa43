-- ===== src/ControlPlane/Publish.antt =====
-- From the control plane to the gateway: the answer to GET /internal/v1/routes
-- (internal/controlplane/delivery/http/v1/dto.go), read by the gateway's client. The JSON in between
-- has the same fields on both sides.
pub mod Accepted
pub mod Blocked
use edge_guard.Base.{List, map, ℤ, Result, ok, err, Error, opaque, ◌>>=◌}
use edge_guard.Text.{Text}
use edge_guard.Gateway.Snapshot.{RouteResponse}
use edge_guard.ControlPlane.Domain.{GatewayRoute}

unfoldable pub new_gateway_route_response : GatewayRoute → RouteResponse
new_gateway_route_response route = record {
  project_id = route.project_id;
  name = route.name;
  path_prefix = route.path_prefix;
  upstream_url = route.upstream_url;
  strip_prefix = route.strip_prefix;
  timeout_ms = route.timeout_ms;
  auth_required = route.auth_required;
  rate_limit_enabled = route.rate_limit.enabled;
  rate_limit_requests = route.rate_limit.requests;
  rate_limit_window_seconds = route.rate_limit.window_seconds;
}

unfoldable pub new_gateway_route_list_response : List GatewayRoute → List RouteResponse
unfolding new_gateway_route_response
new_gateway_route_list_response routes = map new_gateway_route_response routes
