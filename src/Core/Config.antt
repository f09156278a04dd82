-- ===== src/Core/Config.antt =====
-- crates/matrix-core/src/config.rs: `Defs` is the program, `Spec` what a configuration has to be.
pub mod Defs
pub mod Spec
pub mod Checks
pub mod Sound
unfoldable pub use Defs.*
