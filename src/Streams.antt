-- ===== src/Streams.antt =====
-- Two processes that share an open file after `fork`, each with its own buffer of stdio:
-- assignments/as2/as2_5.c, where both write to it, and assignments/as2/as2_4.c, where both read it.
-- The processes interleave by the rounds of their loops, each of which makes at most one call of
-- `write` or `read` on the file, at the offset that they share. The size of the buffer, which the C library chooses, is `capacity`. The file is
-- taken to open, `fork` and the calls not to fail.
mod Shuffle
pub mod Writes
pub mod Written
pub mod Apart
pub mod Reads
pub mod Rounds
pub mod Shared
mod Witnesses
