-- ===== src/Tests.antt =====
-- Runs of the theorems on concrete inputs.
mod Messages
mod Sessions
mod Administration
mod Hub
mod KeyValue
mod Managers
mod Connection
mod Buckets
mod Browsing
mod Subscriptions
mod Monitoring
mod Forms
