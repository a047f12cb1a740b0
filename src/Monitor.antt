-- ===== src/Monitor.antt =====
-- Cluster monitoring, desktop/internal/monitor.
pub mod Events
pub mod Servers
