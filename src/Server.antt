-- ===== src/Server.antt =====
-- The server's side of a terminal: src/server.
pub mod Differ
mod Tests
