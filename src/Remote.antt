-- ===== src/Remote.antt =====
-- The remote end: crates/ssh-proxy/src/remote.rs, and how it reaches a target in
-- crates/ssh-proxy/src/remote/egress.rs.
pub mod Egress
pub mod State
pub mod Tasks
pub mod Relay
pub mod Events
pub mod Streams
pub mod Invariant
mod Tests
mod RelayTests
