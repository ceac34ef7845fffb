-- ===== src/Wal/Decode.antt =====
-- Decoding of what a server wrote.
pub mod Primitives
pub mod Messages
pub mod Refinement
