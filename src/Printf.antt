-- ===== src/Printf.antt =====
-- lib/sprintf.c: the output of strings and fills into a bounded buffer, and of numbers.
pub mod Output
pub mod Numbers
pub mod Format
mod Tests
