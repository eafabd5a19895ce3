-- ===== src/Postgres.antt =====
-- internal/postgres: the store that the services use.
pub mod Titles
pub mod Ratings
pub mod Paging
pub mod Comments
pub mod Groups
pub mod Users
pub mod Activity
