-- ===== src/Quic.antt =====
-- Native QUIC sessions of a route: crates/ssh-proxy/src/quic_native.
pub mod Header
pub mod Flow
pub mod Session
pub mod Pool
pub mod Runtime
pub mod Tests
