-- ===== src/Server.antt =====
-- hw7/chatserver.c: the chat server's state, its handlers and its main loop.
pub mod State
pub mod Messages
pub mod Handlers
pub mod Loop
pub mod Select
mod Examples
pub mod Delivery
pub mod Faults
pub mod Serving
pub mod Handling
pub mod Texts
pub mod Welcome
pub mod Invariant
