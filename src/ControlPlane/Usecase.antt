-- ===== src/ControlPlane/Usecase.antt =====
-- internal/controlplane/usecase: each creation checks first and stores then.
use edge_guard.Base.{ℤ, Bool, ok, err}
use edge_guard.Text.{Text}
use edge_guard.Url.{ParseUrl}
use edge_guard.ControlPlane.Domain.{
  Outcome, Project, Service, Route, RateLimitPolicy, new_project, new_service, new_route,
}
use edge_guard.ControlPlane.Store
use edge_guard.ControlPlane.Store.{Tables, Insertion}

pub record CreateServiceInput : Type 0 where
  pub project_id : Text
  pub name : Text
  pub upstream_url : Text

pub record CreateRouteInput : Type 0 where
  pub service_id : Text
  pub name : Text
  pub path_prefix : Text
  pub strip_prefix : Bool
  pub timeout_ms : ℤ
  pub enabled : Bool
  pub auth_required : Bool
  pub rate_limit : RateLimitPolicy

-- A value that was checked goes to the store; an error leaves the tables alone.
abbrev stored :
    {A : Type 0} → (A → Tables → Outcome A × Tables) → Outcome A → Tables → Outcome A × Tables
stored store (ok a) t = store a t
stored store (err e) t = (err e, t)

unfoldable pub create_project : Insertion → Text → Tables → Outcome Project × Tables
create_project new name t = stored (Store.create_project new) (new_project name) t

unfoldable pub create_service :
    ParseUrl → Insertion → CreateServiceInput → Tables → Outcome Service × Tables
create_service parse_url new input t =
    stored (Store.create_service new)
      (new_service parse_url input.project_id input.name input.upstream_url) t

unfoldable pub create_route : Insertion → CreateRouteInput → Tables → Outcome Route × Tables
create_route new input t =
    stored (Store.create_route new)
      (new_route input.service_id input.name input.path_prefix input.strip_prefix input.timeout_ms
        input.enabled input.auth_required input.rate_limit)
      t
