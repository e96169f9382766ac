-- ===== src/CString.antt =====
-- lib/string.c: the C string and memory routines, over a byte memory.
pub mod Scan
pub mod Copy
pub mod Compare
pub mod Block
pub mod Search
pub mod Number
mod Tests
