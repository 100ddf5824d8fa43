-- ===== src/ControlPlane/Publish/Blocked.antt =====
-- Configurations that the control plane stores, and that stop the gateway from taking over any
-- snapshot.
use edge_guard.Base.{
  ◌≡◌, inl, inr, true, false, List, ◌∷◌, ◌++◌, some, ok, err, Error, arith, Result-cases, wrap, ℕ,
}
use edge_guard.Text.{Text, trim_space}
use edge_guard.Text.Trim.{trim_space-trim_space}
use edge_guard.Url.{Url, ParseUrl}
use edge_guard.Gateway.Route
use edge_guard.Gateway.Route.{Sentinel}
use edge_guard.Gateway.Usecase.{Outcome, RouteRepository, refresh_routes}
use edge_guard.Gateway.Usecase.Refresh.{refresh_routes_failed}
use edge_guard.Gateway.Snapshot.{RouteResponse, to_domain, is_http_url, response_to_domain}
use edge_guard.Gateway.Snapshot.Sound.{response_to_domain-refused, response_to_domain-duplicate}
use edge_guard.ControlPlane.Domain
use edge_guard.ControlPlane.Domain.{Service, new_service}
use edge_guard.ControlPlane.Store.{gateway_route}
use edge_guard.ControlPlane.Domain.Checked.{IsChecked}
use edge_guard.ControlPlane.Publish.Accepted.{
  IsReachable, IsInRange, IsCanonical, to_domain-accepts,
}
use edge_guard.ControlPlane.Publish.{new_gateway_route_response}

module _ (parse_url : ParseUrl) where
  accepted_is_http :
      (item : RouteResponse) (d : Route.Route) (u : Url)
      → parse_url (trim_space item.upstream_url) ≡ ok u
      → to_domain parse_url item ≡ ok d
      → is_http_url u ≡ true
  unfolding to_domain
  accepted_is_http item d u p h = ground arith

  not_http_refused :
      (item : RouteResponse) (u : Url)
      → parse_url (trim_space item.upstream_url) ≡ ok u
      → is_http_url u ≡ false
      → (e : Error Sentinel) × (to_domain parse_url item ≡ err e)
  not_http_refused item u p h = elim (Result-cases (to_domain parse_url item)) [
    | inr (e, refused) ↦ (e, refused)
    | inl (d, accepted) ↦ cc (accepted_is_http item d u p accepted)
  ]

  -- the snapshot that the control plane publishes, taken over by a gateway with routes `old`
  abbrev pub refreshed : List RouteResponse → RouteRepository → RouteRepository × Outcome ℕ
  refreshed response old = refresh_routes (some (response_to_domain parse_url response)) old

  blocked :
      (response : List RouteResponse) (old : RouteRepository) {e : Error Sentinel}
      → response_to_domain parse_url response ≡ err e
      → (e' : Error Sentinel) × (refreshed response old ≡ (old, err e'))
  blocked response old {e} h = (
    wrap "load route snapshot" e,
    refresh_routes_failed (response_to_domain parse_url response) old h,
  )

  checked_url :
      (project name url : Text) (s : Service)
      → new_service parse_url project name url ≡ ok s
      → trim_space s.upstream_url ≡ trim_space url
  unfolding new_service
  checked_url project name url s h = ground (arith, trim_space-trim_space url)

  -- A service that the control plane accepts, with a URL whose scheme is neither http nor https,
  -- blocks the gateway: as long as one route of it is published, among any other routes, a refresh
  -- fails and the gateway keeps the routes that it had.
  pub not_http_blocks :
      (project name url : Text) (s : Service) (u : Url)
      → new_service parse_url project name url ≡ ok s
      → parse_url (trim_space url) ≡ ok u
      → is_http_url u ≡ false
      → (r : Domain.Route) (before after : List RouteResponse) (old : RouteRepository)
      → (e : Error Sentinel) × (refreshed
            (before ++ new_gateway_route_response (gateway_route s r) ∷ after)
            old
          ≡ (old, err e))
  unfolding new_gateway_route_response gateway_route
  not_http_blocks project name url s u made p h r before after old =
      let item = new_gateway_route_response (gateway_route s r) in
      let (_, refused) = not_http_refused item u (rw (checked_url project name url s made) p) h in
      blocked (before ++ item ∷ after) old
        (response_to_domain-refused parse_url before item after refused).1

  -- Two enabled routes with one prefix, each acceptable by itself, block the gateway in the same
  -- way, also where they belong to different services or projects, for which the table of routes
  -- has no constraint.
  pub shared_prefix_blocks :
      (s t : Service) (r q : Domain.Route)
      → IsReachable parse_url s
      → IsReachable parse_url t
      → IsChecked r
      → IsChecked q
      → IsInRange r
      → IsInRange q
      → IsCanonical r.path_prefix
      → q.path_prefix ≡ r.path_prefix
      → (before between after : List RouteResponse) (old : RouteRepository)
      → (e : Error Sentinel) × (refreshed
            (before
              ++ (new_gateway_route_response (gateway_route s r) ∷ between
                  ++ new_gateway_route_response (gateway_route t q) ∷ after))
            old
          ≡ (old, err e))
  shared_prefix_blocks s t r q rs rt cr cq ir iq canonical same before between after old =
      let first = new_gateway_route_response (gateway_route s r) in
      let second = new_gateway_route_response (gateway_route t q) in
      blocked (before ++ (first ∷ between ++ second ∷ after)) old
        (response_to_domain-duplicate parse_url before first between second after
          (to_domain-accepts parse_url s r rs cr ir canonical)
          (to_domain-accepts parse_url t q rt cq iq (rw same canonical)) same).1
