-- ===== src/Server.antt =====
-- src/server: what the server keeps and does for a request.
pub mod InMemory
pub mod Api
pub mod Tcp
