-- ===== src/Core/Layout.antt =====
-- crates/matrix-core/src/layout.rs: templates, widgets and panels; `Layout.Render` draws them.
pub mod Float
pub mod Render
pub mod Types
unfoldable pub use Types.*
