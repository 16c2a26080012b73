-- ===== src/Preview.antt =====
pub mod Kind
pub mod Escape
pub mod Pattern
pub mod Highlight
pub mod Shown
pub mod Overlay
mod Tests
