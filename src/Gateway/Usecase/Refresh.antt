-- ===== src/Gateway/Usecase/Refresh.antt =====
-- Refreshing the routes takes over a whole snapshot or nothing.
use edge_guard.Base.{◌≡◌, List, err, some, Error, wrap}
use edge_guard.Gateway.Route.{Sentinel, Route}
use edge_guard.Gateway.Usecase.{Outcome, RouteRepository, refresh_routes}

-- A source that fails leaves the routes as they were.
pub refresh_routes_failed :
    (source : Outcome (List Route)) (r : RouteRepository) {e : Error Sentinel}
    → source ≡ err e
    → refresh_routes (some source) r ≡ (r, err (wrap "load route snapshot" e))
unfolding refresh_routes
refresh_routes_failed source r h = rw h
