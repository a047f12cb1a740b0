-- ===== src/Messaging.antt =====
-- desktop/internal/messaging: subscription sessions and the data structures they are built from.
pub mod Ring
pub mod Pusher
pub mod RateMeter
pub mod Wire
pub mod Filter
pub mod Session
pub mod Manager
pub mod Hub
