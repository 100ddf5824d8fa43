-- ===== src/Analytics.antt =====
-- The analytics service, internal/analytics: it stores the gateway's access events, keeps hourly
-- statistics of them, and answers queries on these.
pub mod Event
pub mod Store
pub mod Usecase
pub mod Consumer
pub mod Query
pub mod Http
mod Examples
