-- ===== src/Route.antt =====
-- The decisions on a route: crates/ssh-proxy-route/src. Each is a function of its inputs alone.
pub mod Text
pub mod Mode
pub mod Decision
pub mod Preflight
pub mod RemoteUse
pub mod Pool
pub mod Conflict
pub mod Status
pub mod Tests
