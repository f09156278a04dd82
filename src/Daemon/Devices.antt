-- ===== src/Daemon/Devices.antt =====
-- crates/matrix-daemon/src/devices.rs: the panels on their serial ports, which panel stands where, and
-- the identification of a port.
pub mod Panel
pub mod Route
pub mod Registry
pub mod Panels
pub mod Listing
pub mod Identify
pub mod Shutdown
