-- ===== src/Command/Run.antt =====
-- `pre_command` and `do_cmd` of command.c, the table of core.c, and the main loop of server.c.
pub mod Table
pub mod Serve
pub mod Checks
pub mod Quit
