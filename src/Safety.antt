-- ===== src/Safety.antt =====
-- What no client can make a session do: leave its root, reach a file before it has logged in, or
-- crash the process.
pub mod Invariant
pub mod Replies
pub mod Paths
pub mod Streams
pub mod Pool
pub mod Sends
pub mod FileHandlers
pub mod Handlers
pub mod Listing
pub mod Naming
pub mod Login
pub mod Account
pub mod Password
pub mod Main
pub mod Commands
pub mod Descriptors
pub mod Session
