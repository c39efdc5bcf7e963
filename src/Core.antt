-- ===== src/Core.antt =====
-- src/core.c and src/core.h.
pub mod Reply
pub mod Types
pub mod Valid
pub mod Plan
pub mod Connect
pub mod Pool
pub mod Private
pub mod Pipeline
pub mod Locking
pub mod Script
pub mod Execute
pub mod Serialize
pub mod Registry
