-- ===== src/Server.antt =====
-- internal/server
pub mod Recording
