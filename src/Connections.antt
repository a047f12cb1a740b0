-- ===== src/Connections.antt =====
-- The owner of the live connection, internal/connections/manager.go.
pub mod Manager
pub mod Backoff
