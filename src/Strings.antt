-- ===== src/Strings.antt =====
-- lib/string.c, a file for each group of functions. An address is an index into a memory of bytes;
-- a pointer that is only read is the list of bytes from there on. `none` is an access outside it.
-- `char` is unsigned, as in the Power ABI.
pub mod Copy
pub mod Measure
pub mod Compare
pub mod Search
pub mod Build
pub mod Number
mod Tests
