-- ===== src/Cluster.antt =====
-- A model server that spans several machines (crates/metralectl-agent/src/cluster.rs,
-- clusterdriver.rs, rendezvous.rs, rank.rs, transport.rs; crates/metralectl/src/rankservice).
pub mod Fleet
pub mod Rendezvous
pub mod Plan
pub mod Ports
pub mod Resolve
pub mod Loops
pub mod Driver
pub mod Host
pub mod Rank
mod Faithful
mod Whole
mod Placed
mod Honoured
mod Reserved
mod Samples
mod Tests
