-- ===== src/Records.antt =====
-- cw02/zad1: files of records of one size, generated, copied, bubble-sorted and shuffled in place,
-- by system calls or by the C library's streams.
pub mod Io
pub mod Handles
pub mod Disk
pub mod Bsort
pub mod Shuffle
pub mod Generate
pub mod MakeTest
pub mod Main
mod Tests
