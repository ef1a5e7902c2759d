-- ===== src/Client.antt =====
-- hw7/chatclient.c: the chat client.
pub mod State
pub mod Calls
pub mod Loop
pub mod Whole
pub mod Ending
pub mod Names
pub mod Bounds
mod Examples
