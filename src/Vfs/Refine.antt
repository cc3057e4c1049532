-- ===== src/Vfs/Refine.antt =====
-- `vfs_realpath` computes the stack: its reading of the path, its buffer, the whole, and a path that
-- is canonical already.
pub mod Reading
pub mod Buffer
pub mod Theorems
pub mod RoundTrip
