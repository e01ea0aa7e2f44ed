-- ===== src/Bench.antt =====
-- The benchmark jobs of a node (crates/metralectl-agent/src/bench): the job and its events, the
-- machine's side as an interface, and a job's life as a program over it.
pub mod Job
pub mod Ports
pub mod Machine
pub mod Journal
mod Tests
