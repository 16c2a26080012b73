-- ===== src/Messages.antt =====
-- web/src/error-codes.ts and web/src/i18n.ts: the texts that the panel shows.
pub mod Catalogue
pub mod En
pub mod Zh
pub mod ErrorCodes
pub mod Locale
pub mod Laws
mod Tests
