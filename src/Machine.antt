-- ===== src/Machine.antt =====
-- A session process: its state, the system around it, and the rules to reason about its code.
pub mod Types
pub mod Monad
pub mod Errno
pub mod Keeps
pub mod Leads
pub mod Stays
pub mod Descriptors
