-- ===== src/Server.antt =====
-- server.c: the command buffer.
pub mod Buffer
pub mod Framing
pub mod Listen
pub mod Poll
