-- ===== src/Text.antt =====
-- The text helpers of util.c, over the C library's character classes.
pub mod Ctype
pub mod Util
pub mod Number
pub mod Time
