-- ===== src/Cluster.antt =====
-- src/cluster.c.
pub mod Slot
pub mod Nodes
pub mod Topology
pub mod Keys
pub mod Discover
pub mod Hops
