-- ===== src/Start.antt =====
-- main.c, log.c and the part of daemon.c in front of the loop: how the server starts.
pub mod Log
pub mod Listener
pub mod Main
