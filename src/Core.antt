-- ===== src/Core.antt =====
-- crates/matrix-core: the deterministic part (frames, layouts, configuration, assistant metadata,
-- the panel protocol), with no clock, file or device.
pub mod Frame
pub mod Assistant
pub mod Brightness
pub mod Layout
pub mod Config
pub mod Protocol
