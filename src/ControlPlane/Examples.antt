-- ===== src/ControlPlane/Examples.antt =====
-- The control plane on concrete configurations.
use edge_guard.Base.{◌≡◌, refl, pos, inr, true, false, [], ◌∷◌, ◌++◌, arith, ok, err, Error}
use edge_guard.Text.{Text, codes, trim_space, ◌≟◌, has_prefix, trim_right}
use edge_guard.Url.{ParseUrl}
use edge_guard.Gateway.Route.{Sentinel}
use edge_guard.Gateway.Usecase.{RouteRepository}
use edge_guard.Gateway.Snapshot.{to_domain, is_http_url}
use edge_guard.ControlPlane.Domain.{Service, Route, RateLimitPolicy, new_route, new_service}
use edge_guard.ControlPlane.Domain.Checked.{IsChecked, new_route-IsChecked}
use edge_guard.ControlPlane.Store.{gateway_route}
use edge_guard.ControlPlane.Publish.{new_gateway_route_response}
use edge_guard.ControlPlane.Publish.Accepted.{
  IsReachable, IsInRange, IsCanonical, served, to_domain-accepts,
}
use edge_guard.ControlPlane.Publish.Blocked.{refreshed, not_http_blocks, shared_prefix_blocks}

abbrev limit : RateLimitPolicy
limit = record { enabled = true; requests = pos 10; window_seconds = pos 60 }

abbrev api : Route
api = record {
  id = [];
  service_id = codes "s1";
  name = codes "api";
  path_prefix = codes "/api";
  strip_prefix = true;
  timeout_ms = pos 3000;
  enabled = true;
  auth_required = true;
  rate_limit = limit;
  created_at = 0;
  updated_at = 0;
}

made : new_route (codes "s1 ") (codes "api") (codes " /api") true (pos 0) true true limit ≡ ok api
unfolding new_route trim_space has_prefix
made = refl

new_route-IsChecked_example : IsChecked api
new_route-IsChecked_example =
    new_route-IsChecked (codes "s1 ") (codes "api") (codes " /api") true (pos 0) true true limit api
      made

-- everything parses, as a URL whose scheme is the given one
abbrev parser : Text → ParseUrl
parser scheme text = ok (record { scheme = scheme; host = codes "h"; text = text })

abbrev service : Text → Service
service url = record {
  id = [];
  project_id = codes "p1";
  name = codes "orders";
  upstream_url = url;
  created_at = 0;
  updated_at = 0;
}

abbrev other_service : Service
other_service = record (service (codes "http://h")) { project_id = codes "p2" }

reachable : IsReachable (parser (codes "http")) (service (codes "http://h"))
unfolding trim_space is_http_url ◌≟◌
reachable = record {
  project = refl;
  project_trimmed = refl;
  url_trimmed = refl;
  url = record { scheme = codes "http"; host = codes "h"; text = codes "http://h" };
  parses = refl;
  http = refl;
}

other-IsReachable : IsReachable (parser (codes "http")) other_service
unfolding trim_space is_http_url ◌≟◌
other-IsReachable = record {
  project = refl;
  project_trimmed = refl;
  url_trimmed = refl;
  url = record { scheme = codes "http"; host = codes "h"; text = codes "http://h" };
  parses = refl;
  http = refl;
}

in_range : IsInRange api
in_range = record { timeout = omega arith; window = omega arith }

canonical : IsCanonical (codes "/api")
unfolding trim_right
canonical = inr refl

to_domain-accepts_example :
    to_domain
      (parser (codes "http"))
      (new_gateway_route_response (gateway_route (service (codes "http://h")) api))
    ≡ ok (served (service (codes "http://h")) api)
to_domain-accepts_example =
    to_domain-accepts (parser (codes "http")) (service (codes "http://h")) api reachable
      (new_route-IsChecked (codes "s1 ") (codes "api") (codes " /api") true (pos 0) true true limit
        api made)
      in_range canonical

ftp_service :
    new_service (parser (codes "ftp")) (codes "p1") (codes "orders") (codes "ftp://h")
    ≡ ok (service (codes "ftp://h"))
unfolding new_service trim_space
ftp_service = refl

ftp_refused :
    is_http_url
      (record { scheme = codes "ftp"; host = codes "h"; text = trim_space (codes "ftp://h") })
    ≡ false
unfolding is_http_url ◌≟◌
ftp_refused = refl

abbrev no_routes : RouteRepository
no_routes = record { routes = [] }

not_http_blocks_example :
    (e : Error Sentinel) × (refreshed
        (parser (codes "ftp"))
        ([] ++ new_gateway_route_response (gateway_route (service (codes "ftp://h")) api) ∷ [])
        no_routes
      ≡ (no_routes, err e))
not_http_blocks_example =
    not_http_blocks (parser (codes "ftp")) (codes "p1") (codes "orders") (codes "ftp://h")
      (service (codes "ftp://h"))
      (record { scheme = codes "ftp"; host = codes "h"; text = trim_space (codes "ftp://h") })
      ftp_service refl ftp_refused api [] [] no_routes

shared_prefix_blocks_example :
    (e : Error Sentinel) × (refreshed
        (parser (codes "http"))
        ([]
          ++ (new_gateway_route_response (gateway_route (service (codes "http://h")) api) ∷ []
              ++ new_gateway_route_response (gateway_route other_service api) ∷ []))
        no_routes
      ≡ (no_routes, err e))
shared_prefix_blocks_example =
    shared_prefix_blocks (parser (codes "http")) (service (codes "http://h")) other_service api api
      reachable other-IsReachable
      (new_route-IsChecked (codes "s1 ") (codes "api") (codes " /api") true (pos 0) true true limit
        api made)
      (new_route-IsChecked (codes "s1 ") (codes "api") (codes " /api") true (pos 0) true true limit
        api made)
      in_range in_range canonical refl [] [] [] no_routes
