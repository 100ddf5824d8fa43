-- ===== src/Gateway.antt =====
-- internal/gateway: the data plane.
pub mod Route
mod Examples
pub mod Usecase
pub mod Snapshot
pub mod Limiter
pub mod Handler
pub mod AccessEvents
