-- ===== src/Core/Descriptors.antt =====
-- core.c: which descriptors a transfer leaves open.
pub mod Plain
pub mod Transfers
pub mod Opened
pub mod Closed
pub mod Neutral
pub mod Account
pub mod Listing
