-- ===== src/JsAdmin.antt =====
-- The JetStream management surface, internal/jsadmin.
pub mod Backup
pub mod Browser
pub mod Errors
pub mod Streams
pub mod Consumers
pub mod Cluster
