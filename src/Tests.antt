-- ===== src/Tests.antt =====
-- Concrete runs: a connection, messages and outcomes for them, the theorems at these inputs, and
-- evaluations of the definitions. The children: frames and crypto, requests, the reader.
mod Samples
mod Wire
mod Requests
mod Session
mod Rest
mod Build
mod Streams
mod Notices
mod Delays
mod Texts
