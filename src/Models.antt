-- ===== src/Models.antt =====
-- engine/models
pub mod Names
mod Inside
pub mod Download
mod Fetched
pub mod Ends
mod Finished
mod Commit
pub mod Registry
pub mod Tasks
pub mod Service
pub mod Events
mod Owned
mod Held
mod Kept
mod Launched
mod Steps
mod Calls
pub mod Safe
mod Deleted
mod Recovered
mod Active
mod Stopped
mod Halting
mod Quiet
mod Refused
mod Tests
