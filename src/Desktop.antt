-- ===== src/Desktop.antt =====
-- apps/desktop/src-tauri/src/main.rs: the commands of the desktop application.
pub mod Commands
pub mod Bridge
pub mod Calls
pub mod InFlight
