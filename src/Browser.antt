-- ===== src/Browser.antt =====
-- web/src/views/FileBrowserView.vue: the file browser.
pub mod Path
pub mod Listing
pub mod Conflicts
pub mod Panel
pub mod Drop
pub mod Refs
pub mod Routing
pub mod View
mod Tests
mod PanelTests
