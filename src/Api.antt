-- ===== src/Api.antt =====
-- What the panel's HTTP client (web/src/api.ts) gives the rest of the panel.
pub mod Problem
pub mod Url
pub mod Types
pub mod Request
pub mod Calls
mod Tests
