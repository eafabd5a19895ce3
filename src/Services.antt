-- ===== src/Services.antt =====
-- internal/services
pub mod Ratings
pub mod Comments
pub mod Users
pub mod Activity
pub mod Groups
