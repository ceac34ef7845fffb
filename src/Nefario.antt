-- ===== src/Nefario.antt =====
-- The server of the agents: nefario/nefario.go and its queries.
pub mod Crud
pub mod Consumers
pub mod Stops
pub mod Cancels
pub mod Changes
pub mod Cycle
pub mod Own
pub mod Messages
mod Tests
