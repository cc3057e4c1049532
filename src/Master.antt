-- ===== src/Master.antt =====
-- The master process: the list of its children, and its loop.
pub mod Children
pub mod Daemon
pub mod Counting
pub mod Limit
pub mod Table
pub mod Entries
pub mod Follows
pub mod Quit
pub mod Pipe
