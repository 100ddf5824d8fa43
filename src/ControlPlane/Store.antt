-- ===== src/ControlPlane/Store.antt =====
-- internal/controlplane/infrastructure/postgres with the tables of migrations/000001 and 000003. An
-- insertion is given the id and the time that the database chooses, and `fault`, an error of the
-- driver if there is one. Ids are compared as text. The order of ORDER BY, which rests on the
-- database's collation, is a parameter.
use edge_guard.Base.{
  String, ℤ, pos, negsuc, int_le, int_lt, ◌^◌, ◌-◌, Bool, false, not, ◌&&◌, ◌||◌, Option, none,
  some, List, [], ◌∷◌, ◌++◌, if◌then◌else◌, ok, err, Error, wrap, opaque,
}
use edge_guard.Base.Time.{Time}
use edge_guard.Text.{Text, codes, ◌≟◌}
use edge_guard.ControlPlane.Domain.{
  Sentinel, Outcome, Project, Service, Route, GatewayRoute, RateLimitPolicy,
}

pub record Tables : Type 0 where
  pub projects : List Project
  pub services : List Service
  pub routes : List Route

-- What goes on outside: an error of the driver, or the id and the time of the new row.
pub record Insertion : Type 0 where
  pub fault : Option (Error Sentinel)
  pub id : Text
  pub now : Time

abbrev any {ℓ} : {A : Type ℓ} → (A → Bool) → List A → Bool
any p [] = false
any p (x ∷ xs) = p x || any p xs

-- a violated constraint, with the driver's error
abbrev violation : String → Text → Error Sentinel
violation context message = wrap context (opaque message)

unfoldable pub create_project : Insertion → Project → Tables → Outcome Project × Tables
create_project new project t = elim new.fault [
  | some e ↦ (err (wrap "create project" e), t)
  | none ↦
      if any (λ p. p.name ≟ project.name) t.projects
      then (err (violation "create project" (codes "unique name")), t)
      else let row = record project { id = new.id; created_at = new.now; updated_at = new.now } in
        (ok row, record t { projects = t.projects ++ row ∷ [] })
]

unfoldable pub create_service : Insertion → Service → Tables → Outcome Service × Tables
create_service new service t = elim new.fault [
  | some e ↦ (err (wrap "create service" e), t)
  | none ↦
      if not (any (λ p. p.id ≟ service.project_id) t.projects)
      then (err (violation "create service" (codes "project")), t)
      else if any (λ s. s.project_id ≟ service.project_id && s.name ≟ service.name) t.services
      then (err (violation "create service" (codes "unique project and name")), t)
      else let row = record service { id = new.id; created_at = new.now; updated_at = new.now } in
        (ok row, record t { services = t.services ++ row ∷ [] })
]

-- The columns of numbers are INTEGER.
abbrev pub is_int4 : ℤ → Bool
is_int4 z = int_le (negsuc (2 ^ 31 - 1)) z && int_le z (pos (2 ^ 31 - 1))

-- `routes_rate_limit_policy_check`
abbrev is_storable : RateLimitPolicy → Bool
is_storable p =
    if p.enabled
    then int_lt (pos 0) p.requests && int_lt (pos 0) p.window_seconds
    else int_le p.requests (pos 0)
      && int_le (pos 0) p.requests
      && int_le p.window_seconds (pos 0)
      && int_le (pos 0) p.window_seconds

abbrev is_in_range : Route → Bool
is_in_range r =
    is_int4 r.timeout_ms && is_int4 r.rate_limit.requests && is_int4 r.rate_limit.window_seconds

abbrev collides : Route → Route → Bool
collides r s = s.service_id ≟ r.service_id && (s.name ≟ r.name || s.path_prefix ≟ r.path_prefix)

unfoldable pub create_route : Insertion → Route → Tables → Outcome Route × Tables
create_route new route t = elim new.fault [
  | some e ↦ (err (wrap "create route" e), t)
  | none ↦
      if not (is_in_range route && is_storable route.rate_limit)
      then (err (violation "create route" (codes "check")), t)
      else if not (any (λ s. s.id ≟ route.service_id) t.services)
      then (err (violation "create route" (codes "service")), t)
      else if any (collides route) t.routes
      then (err (violation "create route" (codes "unique service, name and prefix")), t)
      else let row = record route { id = new.id; created_at = new.now; updated_at = new.now } in
        (ok row, record t { routes = t.routes ++ row ∷ [] })
]

-- the service of a route, by its id
unfoldable pub service_of : Text → List Service → Option Service
service_of id [] = none
service_of id (s ∷ services) = if s.id ≟ id then some s else service_of id services

unfoldable pub gateway_route : Service → Route → GatewayRoute
gateway_route s r = record {
  project_id = s.project_id;
  name = r.name;
  path_prefix = r.path_prefix;
  upstream_url = s.upstream_url;
  strip_prefix = r.strip_prefix;
  timeout_ms = r.timeout_ms;
  auth_required = r.auth_required;
  rate_limit = r.rate_limit;
}

-- the rows that the join selects, in the order of the tables
unfoldable pub joined : List Service → List Route → List GatewayRoute
unfolding gateway_route
joined services [] = []
joined services (r ∷ routes) =
    let rest = joined services routes in
    if r.enabled
    then elim (service_of r.service_id services) [ none ↦ rest | some s ↦ gateway_route s r ∷ rest ]
    else rest

unfoldable pub list_gateway_routes :
    (List GatewayRoute → List GatewayRoute)
    → Option (Error Sentinel)
    → Tables
    → Outcome (List GatewayRoute)
list_gateway_routes order_by (some e) t = err (wrap "list gateway routes" e)
list_gateway_routes order_by none t = ok (order_by (joined t.services t.routes))
