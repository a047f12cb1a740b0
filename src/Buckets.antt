-- ===== src/Buckets.antt =====
-- The key-value and object buckets of desktop/internal/buckets.
pub mod Checks
pub mod Edits
pub mod Errors
pub mod Forms
pub mod Kv
pub mod Names
pub mod Registry
pub mod Transfer
pub mod Watch
