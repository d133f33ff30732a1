-- ===== src/Running.antt =====
-- The router while it runs: the calls on the state of server.rs that its tasks make, in any order, and
-- that the counters of its policies agree with the requests in flight.
pub mod Routes
pub mod Stages
pub mod Steps
pub mod Loads
pub mod Calls
pub mod Balanced
pub mod Invariant
pub mod Start
