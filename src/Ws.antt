-- ===== src/Ws.antt =====
-- Package ws (kis/ws): the realtime WebSocket protocol.
pub mod Approval
pub mod Backoff
pub mod Coder
pub mod Frame
pub mod Execution
pub mod Message
pub mod Errors
pub mod Crypto
pub mod Conn
pub mod Reader
pub mod Reconnect
pub mod Dial
pub mod System
