-- ===== src/Core.antt =====
-- core.c: the command handlers.
pub mod Info
pub mod Files
pub mod Data
pub mod Restart
pub mod Stopped
pub mod Retrieve
pub mod Descriptors
pub mod Store
