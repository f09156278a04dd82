-- ===== src/Client.antt =====
-- crates/matrix-client: the control messages, their framing, the client's checks and the flow of
-- acknowledgements.
pub mod Failure
pub mod Messages
pub mod Wire
pub mod Check
pub mod Flow
pub mod Conversation
pub mod Startup
pub mod Local
