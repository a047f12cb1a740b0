-- ===== src/Messaging/Session.antt =====
-- One subscription session: `session` and `stateThrottle` of desktop/internal/messaging/sessions.go
-- and the JetStream path of jsposition.go. The children follow the source: State (the record and its
-- snapshot), Throttle, Receive, Control, Subscribe; the others prove.
pub mod State
pub mod Throttle
pub mod Receive
pub mod Control
pub mod Frame
pub mod Steps
pub mod Accounting
pub mod Arrivals
pub mod Delivery
pub mod Display
pub mod Faults
pub mod Subscribe
