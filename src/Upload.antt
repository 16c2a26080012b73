-- ===== src/Upload.antt =====
-- web/src/upload-state.ts and web/src/uploader.ts: the chunked uploader.
mod Tests
pub mod State
pub mod Chunks
pub mod Workers
pub mod Session
pub mod Progress
