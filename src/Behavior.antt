-- ===== src/Behavior.antt =====
-- av/behavior.c.
pub mod Window
pub mod Paths
pub mod Trust
pub mod Protected
pub mod Entries
pub mod Checks
