-- ===== src/Activity.antt =====
-- internal/activity
pub mod Event
pub mod Hub
pub mod Tickets
pub mod Recorder
