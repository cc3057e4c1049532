-- ===== src/Core/Retrieve.antt =====
-- core.c, `transfer_file`: what the client receives of a file.
pub mod Delivered
pub mod Range
