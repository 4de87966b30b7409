-- ===== src/Client.antt =====
-- The Redis client of the agent (`pkg/redis/client.go`): its methods over the interface of `Redis`.
pub mod Keys
pub mod Queue
pub mod Events
pub mod Resolve
pub mod Active
pub mod Logs
pub mod Listing
pub mod Samples
pub mod Typing
pub mod Tracking
mod Tests
