-- ===== src/Wal.antt =====
-- wal-listener/listener
pub mod Outcome
pub mod Buffer
pub mod Word
pub mod Protocol
pub mod Reader
pub mod Messages
pub mod Strconv
pub mod Transaction
pub mod Parser
pub mod Event
pub mod Listener
pub mod Reads
pub mod Encode
pub mod Decode
pub mod Service
pub mod Safety
pub mod Rows
pub mod Columns
mod Fixtures
mod Tests
