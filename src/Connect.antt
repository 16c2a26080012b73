-- ===== src/Connect.antt =====
-- web/src/connect.ts: the addresses and commands of the connection help.
pub mod Base
pub mod Reference
pub mod Info
pub mod Dialog
mod Tests
