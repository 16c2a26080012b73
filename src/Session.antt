-- ===== src/Session.antt =====
-- web/src/store.ts and web/src/router.ts: the session, and the guard of the navigation.
pub mod Store
pub mod Guard
pub mod Laws
pub mod Login
pub mod LoginPage
mod Tests
