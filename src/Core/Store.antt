-- ===== src/Core/Store.antt =====
-- core.c, `store_file`: what is stored of the bytes that a client sends.
pub mod Upload
pub mod Splice
pub mod Round
pub mod Written
