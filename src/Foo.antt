-- ===== src/Foo.antt =====
-- my-src/Chapter-11/11-11.c and 11-12.c: reference-counted objects in a hash table.
pub mod Table
pub mod Steps
pub mod Chain
pub mod Inv
pub mod Find
pub mod Alloc
pub mod Unlink
pub mod Release
pub mod Counts
pub mod Coarse
pub mod Unlocked
pub mod Threads
pub mod Owned
pub mod Sections
pub mod Interleaved
pub mod Kept
pub mod Safe
mod Tests
