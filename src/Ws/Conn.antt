-- ===== src/Ws/Conn.antt =====
-- kis/ws/conn.go: the state of a connection and the operations of its callers.
mod State
mod Pending
mod Request
pub mod Waiters
pub mod WaitersInv
pub mod RequestWaiters
pub mod Subscriptions
pub mod Registered
pub mod Closing
pub mod Unchanged
pub use State.*
unfoldable pub use Pending.*
unfoldable pub use Request.*
