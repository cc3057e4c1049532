-- ===== src/Command.antt =====
-- command.c: the table of commands, and the run of one command.
pub mod Lookup
pub mod Pool
pub mod Run
