-- ===== src/Daemon/Spec/Reuse.antt =====
-- When a running session serves a request: crates/ssh-proxy-daemon/src/session_spec.rs.
use ssh_proxy.Wire.Bytes.{Bytes}
