-- ===== src/ControlPlane.antt =====
-- internal/controlplane: the configuration of projects, services and routes.
pub mod Domain
pub mod Store
pub mod Usecase
pub mod Publish
mod Examples
