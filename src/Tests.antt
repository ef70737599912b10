-- ===== src/Tests.antt =====
-- The theorems applied at concrete inputs: blocklists and names, filters, datagrams, frames.
pub mod Blocklists
pub mod Datagrams
pub mod Numbers
pub mod Frames
pub mod Restarts
pub mod Screens
pub mod Commands
