-- ===== src/Server.antt =====
-- The server, server/: the commands that it proposes.
pub mod Command
