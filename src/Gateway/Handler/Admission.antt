-- ===== src/Gateway/Handler/Admission.antt =====
-- Which requests reach an upstream.
use edge_guard.Base.{
  ◌≡◌, refl, ap, ◌≢◌, ◌⊎◌, inl, inr, true, false, Bool-cases, List, [], ◌∷◌, arith, ok, err,
  Result-cases, All, Error,
}
use edge_guard.Text.{Text, ◌≟◌}
use edge_guard.Gateway.Route.{Sentinel, RateLimitResult, ApiKeyPrincipal, Route}
use edge_guard.Gateway.Usecase.{
  Outcome, resolve_route, authorize_route, check_rate_limit, no_principal,
}
use edge_guard.Gateway.Usecase.Longest.{IsLongest, resolve_route-IsLongest}
use edge_guard.Gateway.Usecase.Checks.{IsAccepted, authorize_route-ok}
use edge_guard.Gateway.Handler.{
  Request, forwarded, Metadata, Ports, api_key_header, get_header, del_header, no_metadata,
  set_access_event_route, principal_metadata, rate_limit_client_id, forward, limited,
  after_authorize, proxy_request,
}

pub del_header-All :
    (name : Text) (headers : List (Text × Text))
    → All (λ h. (h.0 ≟ name) ≡ false) (del_header name headers)
unfolding del_header
del_header-All name [] = tt
del_header-All name ((n, v) ∷ rest) = elim (Bool-cases (n ≟ name)) [
  | inl same ↦ rw same (del_header-All name rest)
  | inr other ↦ rw other (other, del_header-All name rest)
]

-- A result of the rate limiter that does not refuse the request; a limiter that fails refuses none.
abbrev pub IsWithin : Outcome RateLimitResult → Type 0
IsWithin (ok result) = (result.enabled ≡ false) ⊎ (result.allowed ≡ true)
IsWithin (err e) = Unit

IsWithin-of_results :
    (checked : Outcome RateLimitResult)
    → ((result : RateLimitResult)
        → checked ≡ ok result
        → (result.enabled ≡ false) ⊎ (result.allowed ≡ true))
    → IsWithin checked
IsWithin-of_results (ok result) h = h result refl
IsWithin-of_results (err e) h = tt

-- Why a request was sent to the upstream of a route, and what was sent.
pub record IsAdmitted (ports : Ports) (req : Request) (route : Route) (sent : Request)
    : Type 0 where
  pub routes : List Route
  pub listed : ports.listed ≡ ok routes
  pub longest : IsLongest req.path routes route
  pub principal : ApiKeyPrincipal
  pub credential :
      ((route.auth_required ≡ false) × (principal ≡ no_principal))
      ⊎ IsAccepted ports.validator route (get_header api_key_header req.headers) principal
  pub within : IsWithin (
      check_rate_limit ports.limiter route
        (rate_limit_client_id ports.split_host_port req route principal))
  pub same_method : sent.method ≡ req.method
  pub same_path : sent.path ≡ req.path
  pub no_key : All (λ h. (h.0 ≟ api_key_header) ≡ false) sent.headers

limited-forwarded :
    (req : Request) (route chosen : Route) (m : Metadata) (r : Outcome RateLimitResult)
    (sent : Request)
    → (limited req route m r).response ≡ forwarded chosen sent
    → (forward route req ≡ forwarded chosen sent)
      × ((result : RateLimitResult)
          → r ≡ ok result
          → (result.enabled ≡ false) ⊎ (result.allowed ≡ true))
unfolding limited
limited-forwarded req route chosen m (err e) sent h = (ground arith, λ result e'. ground arith)
limited-forwarded req route chosen m (ok r) sent h = (ground arith, λ result e'. ground arith)

forward-parts :
    (req : Request) (route chosen : Route) (sent : Request)
    → forward route req ≡ forwarded chosen sent
    → (route ≡ chosen) × (sent ≡ record req { headers = del_header api_key_header req.headers })
unfolding forward
forward-parts req route chosen sent h = (cc, cc)

unlisted : (e : Error Sentinel) (path : Text) → resolve_route (err e) path ≡ err e
unfolding resolve_route
unlisted e path = refl

-- The stages of the handler that come before the forwarding, as equations.
module _ (ports : Ports) (req : Request) where
  resolved :
      {route : Route}
      → resolve_route ports.listed req.path ≡ ok route
      → proxy_request ports req
        ≡ after_authorize ports req route
            (set_access_event_route route no_metadata)
            (authorize_route ports.validator route (get_header api_key_header req.headers))
  unfolding proxy_request
  resolved h = rw h

  unresolved :
      {route : Route} {sent : Request} (e : Error Sentinel)
      → resolve_route ports.listed req.path ≡ err e
      → (proxy_request ports req).response ≢ forwarded route sent
  unfolding proxy_request
  unresolved e h f = ground arith

  refused :
      (route : Route) {chosen : Route} {sent : Request} (m : Metadata) (e : Error Sentinel)
      → (after_authorize ports req route m (err e)).response ≢ forwarded chosen sent
  unfolding after_authorize
  refused route m e f = ground arith

  checked :
      (route : Route) (m : Metadata) (p : ApiKeyPrincipal)
      → after_authorize ports req route m (ok p)
        ≡ limited req route (principal_metadata p m) (
            check_rate_limit ports.limiter route
              (rate_limit_client_id ports.split_host_port req route p))
  unfolding after_authorize
  checked route m p = refl

  admitted :
      (routes : List Route) (route chosen : Route) (sent : Request) (m : Metadata)
      (p : ApiKeyPrincipal)
      → ports.listed ≡ ok routes
      → IsLongest req.path routes route
      → authorize_route ports.validator route (get_header api_key_header req.headers) ≡ ok p
      → (after_authorize ports req route m (ok p)).response ≡ forwarded chosen sent
      → IsAdmitted ports req chosen sent
  admitted routes route chosen sent m p listed longest granted h =
      let (f, within) =
        limited-forwarded req route chosen (principal_metadata p m) _ sent (rw checked at h) in
      let (same, e) = forward-parts req route chosen sent f in
      rw (← same) (record {
        routes = routes;
        listed = listed;
        longest = longest;
        principal = p;
        credential = authorize_route-ok ports.validator route _ p granted;
        within = IsWithin-of_results _ within;
        same_method = ap (λ (r : Request). r.method) e;
        same_path = ap (λ (r : Request). r.path) e;
        no_key = rw e (del_header-All api_key_header req.headers);
      })

  past_authorize :
      (routes : List Route) (route chosen : Route) (sent : Request) (m : Metadata)
      → ports.listed ≡ ok routes
      → IsLongest req.path routes route
      → (after_authorize ports req route m
          (authorize_route ports.validator route (get_header api_key_header req.headers))).response
        ≡ forwarded chosen sent
      → IsAdmitted ports req chosen sent
  past_authorize routes route chosen sent m listed longest h =
      elim (Result-cases
        (authorize_route ports.validator route (get_header api_key_header req.headers))) [
          | inl (p, granted) ↦
              admitted routes route chosen sent m p listed longest granted (rw granted at h)
          | inr (e, denied) ↦ absurd (refused route m e (rw denied at h))
        ]

-- A request reaches the upstream of a route only if the route is the longest match of its path in
-- the snapshot, the route is open or the validator accepted the API key of the request for the
-- project of the route, and the rate limiter did not refuse it. What is sent has the method and
-- the path of the request, and no X-API-Key header.
pub proxy_request-IsAdmitted :
    (ports : Ports) (req : Request) (route : Route) (sent : Request)
    → (proxy_request ports req).response ≡ forwarded route sent
    → IsAdmitted ports req route sent
proxy_request-IsAdmitted ports req route sent h = elim (Result-cases ports.listed) [
  | inl (routes, listed) ↦ elim (Result-cases (resolve_route ports.listed req.path)) [
    | inl (found, e) ↦
        past_authorize ports req routes found route sent _ listed
          (resolve_route-IsLongest (rw listed at e)) (rw (resolved ports req e) at h)
    | inr (e, missing) ↦ absurd (unresolved ports req e missing h)
  ]
  | inr (e, failed) ↦ absurd (unresolved ports req e (rw failed (unlisted e req.path)) h)
]
