-- ===== src/Database.antt =====
-- internal/database: the rows of the tables of sql/schema, and the state that a query runs on.
pub mod Exec
pub mod Rules
pub mod Shapes
pub mod Titles
pub mod Ratings
pub mod Comments
pub mod Groups
pub mod Users
pub mod Activity
