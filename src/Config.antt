-- ===== src/Config.antt =====
-- config.c: the settings, their parser and their checks.
pub mod Settings
pub mod Parse
pub mod Check
