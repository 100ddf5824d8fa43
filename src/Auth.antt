-- ===== src/Auth.antt =====
-- internal/auth: the sessions of users, and the API keys of projects.
pub mod Tokens
pub mod ApiKeys
pub mod Users
mod Examples
