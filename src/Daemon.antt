-- ===== src/Daemon.antt =====
-- crates/matrix-daemon: the configuration store, the assistant feeds, the devices and the clock.
pub mod Store
pub mod Feeds
pub mod Devices
pub mod Clock
pub mod Session
pub mod Power
pub mod Probe
