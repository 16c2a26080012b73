-- ===== src/Format.antt =====
-- web/src/format.ts: sizes, quotas and percentages as the panel shows and reads them.
mod Tests
pub mod Size
pub mod Quota
pub mod Usage
