-- ===== src/Wal/Safety.antt =====
-- Safety of the listener.
pub mod Positions
pub mod Delivery
pub mod Acknowledge
pub mod Failure
pub mod Retry
