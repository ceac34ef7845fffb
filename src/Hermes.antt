-- ===== src/Hermes.antt =====
-- The message broker: hermes/mailbox.go, hermes/mailbox-store.go and hermes/server.go.
pub mod Name
pub mod Message
pub mod Mailbox
pub mod Store
pub mod Lookup
pub mod Passes
pub mod Publish
pub mod Fresh
pub mod Misses
pub mod Unsent
pub mod Creation
pub mod Named
pub mod Uncached
pub mod Purging
pub mod Channels
pub mod Fixtures
mod Tests
pub mod Removal
pub mod Rpc
pub mod RpcServer
pub mod Session
pub mod Growth
pub mod Timeouts
