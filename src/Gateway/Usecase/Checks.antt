-- ===== src/Gateway/Usecase/Checks.antt =====
-- What it takes to be authorized for a route.
use edge_guard.Base.{
  ◌≡◌, refl, ◌⊎◌, inl, inr, true, false, Bool-cases, Option, none, some, arith, ok, err, is_empty,
}
use edge_guard.Text.{Text, trim_space, ◌≟◌}
use edge_guard.Text.Equal.{≟_iff}
use edge_guard.Gateway.Route.{ApiKeyPrincipal, Route}
use edge_guard.Gateway.Usecase.{Outcome, no_principal, authorized, authorize_route}

-- The validator accepts the key, for the project of the route.
pub record IsAccepted (validator : Option (Text → Outcome ApiKeyPrincipal)) (route : Route)
    (key : Text) (p : ApiKeyPrincipal) : Type 0 where
  pub validate : Text → Outcome ApiKeyPrincipal
  pub configured : validator ≡ some validate
  pub valid : validate key ≡ ok p
  pub same_project : p.project_id ≡ route.project_id
  pub given : is_empty (trim_space key) ≡ false

authorized-ok :
    (route : Route) (r : Outcome ApiKeyPrincipal) (p : ApiKeyPrincipal)
    → authorized route r ≡ ok p
    → (r ≡ ok p) × (p.project_id ≡ route.project_id)
unfolding authorized
authorized-ok route (err e) p h = ground arith
authorized-ok route (ok q) p h = elim (Bool-cases (q.project_id ≟ route.project_id)) [
  | inl same ↦
      let e : q ≡ p = ground arith in
      (ground arith, rw (← e) ((≟_iff q.project_id route.project_id).0 same))
  | inr other ↦ ground arith
]

validated :
    (validate : Text → Outcome ApiKeyPrincipal) (route : Route) (key : Text) (p : ApiKeyPrincipal)
    → route.auth_required ≡ true
    → is_empty (trim_space key) ≡ false
    → authorize_route (some validate) route key ≡ authorized route (validate key)
unfolding authorize_route
validated validate route key p needed given = ground arith

-- `AuthorizeRoute` lets a request through only if the route is open, and then for no principal, or
-- if the configured validator accepted the key, which is not blank, for the project of the route.
pub authorize_route-ok :
    (validator : Option (Text → Outcome ApiKeyPrincipal)) (route : Route) (key : Text)
    (p : ApiKeyPrincipal)
    → authorize_route validator route key ≡ ok p
    → ((route.auth_required ≡ false) × (p ≡ no_principal)) ⊎ IsAccepted validator route key p
unfolding authorize_route
authorize_route-ok none route key p h = ground arith
authorize_route-ok (some validate) route key p h = elim (Bool-cases route.auth_required) [
  | inl needed ↦ elim (Bool-cases (is_empty (trim_space key))) [
    | inl blank ↦ ground arith
    | inr given ↦
        let (valid, same) =
          authorized-ok route (validate key) p
            (rw (← validated validate route key p needed given) h) in
        inr (record {
          validate = validate;
          configured = refl;
          valid = valid;
          same_project = same;
          given = given;
        })
  ]
  | inr open_route ↦ inl (ground arith)
]
