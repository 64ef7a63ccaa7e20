-- ===== src/Daemon.antt =====
-- The daemon's own decisions: crates/ssh-proxy-daemon/src.
pub mod Ports
pub mod Keys
pub mod Json
pub mod Spec
pub mod Job
pub mod Session
pub mod Tests
