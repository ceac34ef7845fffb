-- ===== src/Iter.antt =====
-- The iterators: iter/iter.go.
pub mod Iterator
pub mod Yields
pub mod Concat
pub mod Effects
mod Tests
