-- ===== src/Daemon/Store.antt =====
-- crates/matrix-daemon/src/config.rs: the saved configuration, its file and the preview lease. The
-- file system and the JSON codec are parameters; an instant is a number of milliseconds.
pub mod Files
pub mod Defs
pub mod Preview
pub mod Apply
pub mod Durable
pub mod History
unfoldable pub use Defs.*
