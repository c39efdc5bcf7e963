-- ===== src/Sentinel.antt =====
-- src/sentinel.c, the thread that follows Redis Sentinels.
pub mod Inventory
pub mod Notification
pub mod Masters
pub mod Keeping
pub mod Update
pub mod Locations
pub mod Loop
