-- ===== src/Examples.antt =====
-- The theorems at concrete inputs, and the instances that these need.
pub mod Floats
mod Core
mod Store
mod Daemon
mod Session
mod Devices
mod Startup
mod Desktop
mod Client
