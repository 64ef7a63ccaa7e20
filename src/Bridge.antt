-- ===== src/Bridge.antt =====
-- The client end of an SPX connection: crates/ssh-proxy/src/bridge.rs. A handler is a function from
-- the shared tables to the new tables. What the runtime decides (whether the writer task still takes
-- frames, what becomes of a delivery, how an awaited reply ends) is an argument of the step.
pub mod State
pub mod Metrics
pub mod Open
pub mod Writer
pub mod Reader
pub mod Invariant
pub mod Calls
pub mod Runs
pub mod Streams
pub mod Ends
pub mod Connection
pub mod Tests
