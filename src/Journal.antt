-- ===== src/Journal.antt =====
-- launchy/journalctl-utils.go: the reader of the lines of journalctl, and the publisher that sends what
-- it reads of a process to the server in batches.
pub mod Batches
pub mod Delivery
pub mod Flow
pub mod Lines
pub mod Reading
pub mod Processes
pub mod Histories
pub mod Events
pub mod Kinds
pub mod Crashes
mod Tests
