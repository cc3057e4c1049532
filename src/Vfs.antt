-- ===== src/Vfs.antt =====
-- vfs.c: the virtual file system, which confines a client to a root directory.
pub mod Realpath
pub mod Ops
pub mod Stack
pub mod Refine
