-- ===== src/Students.antt =====
-- The student database of assignments/as1/as1_os.c: a data file of records, and an index file of
-- the offsets of the records. One child models the functions, by what they do; the others prove.
pub mod Record
pub mod Layout
pub mod Slots
pub mod Print
pub mod Search
pub mod Update
pub mod Faults
pub mod Compaction
pub mod Sort
pub mod Menu
mod Tests
mod Examples
mod Witnesses
