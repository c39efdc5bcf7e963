-- ===== src/Examples.antt =====
-- Concrete databases, tasks and replies, and the theorems at them.
pub mod Data
pub mod Plans
pub mod Pools
pub mod Tries
pub mod Executions
pub mod Hops
pub mod Methods
pub mod Printing
pub mod Clusters
pub mod Commands
pub mod Sentinels
pub mod Statistics
