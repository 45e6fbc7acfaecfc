-- ===== src/Controller.antt =====
-- src/controller.c: the connections to the controlling scripts.
pub mod Send
pub mod Receive
pub mod Terminate
pub mod Signals
pub mod Flags
pub mod Files
pub mod Logging
pub mod Poll
mod Examples
