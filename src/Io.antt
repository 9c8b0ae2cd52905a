-- ===== src/Io.antt =====
-- Chapter 14 of my-src: input and output in full, my-src/Chapter-14/14-24.c, and the file converter
-- that stands on reads and writes, my-src/Chapter-14/14-20.c.
pub mod Full
pub mod Rot
pub mod Async
