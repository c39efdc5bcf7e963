-- ===== src/Vmod.antt =====
-- src/vmod_redis.c.
pub mod Command
pub mod Servers
pub mod Execute
pub mod Weights
pub mod Answers
pub mod Databases
pub mod Events
pub mod Statistics
