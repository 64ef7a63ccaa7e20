-- ===== src/Wire.antt =====
-- The SPX data plane: crates/ssh-proxy-protocol/src/protocol.rs.
pub mod Bytes
pub mod Cursor
pub mod Frame
pub mod Source
pub mod Reader
pub mod Sink
pub mod Batch
pub mod RoundTrip
mod Tests
