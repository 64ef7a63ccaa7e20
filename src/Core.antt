-- ===== src/Core.antt =====
-- The protocol core: crates/ssh-proxy-protocol/src/protocol_core.
pub mod Control
pub mod Version
pub mod Repair
pub mod Tests
