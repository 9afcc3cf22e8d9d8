-- ===== src/Client.antt =====
-- The client's side of a terminal: src/client.
pub mod Mirror
mod Tests
