-- ===== src/Launchy.antt =====
-- The agent on each machine: launchy/agent.go, and its composition with the server.
pub mod Slurp
pub mod Last
pub mod Views
pub mod Distinct
pub mod Listing
pub mod Fleet
pub mod Turns
pub mod Insertion
pub mod Handles
pub mod Names
pub mod Sending
pub mod Caching
pub mod Converge
pub mod Keys
pub mod Passing
pub mod Stale
pub mod Orphan
pub mod Fixtures
mod Tests
