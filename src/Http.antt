-- ===== src/Http.antt =====
-- The HTTP proxy: the messages of crates/ssh-proxy-transport/src/proxy/http.rs, and the relay of a
-- response in crates/ssh-proxy/src/socks/relay.rs.
pub mod Text
pub mod Authority
pub mod Headers
pub mod Request
pub mod Response
pub mod Relay
mod Tests
