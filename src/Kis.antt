-- ===== src/Kis.antt =====
-- Package kis: the REST client, and the subscribe frame that package ws shares with it.
pub mod Subscribe
pub mod Host
pub mod Transport
pub mod Limiter
pub mod Response
pub mod Message
pub mod Reads
pub mod Client
pub mod Request
pub mod ApprovalKey
pub mod Socket
pub mod Create
pub mod Mode
pub mod Domestic
pub mod Overseas
pub mod Supported
