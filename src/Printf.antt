-- ===== src/Printf.antt =====
-- lib/printfmt.c and kern/printf.c: formatted output through a callback.
pub mod Number
pub mod Format
pub mod Engine
pub mod Escape
pub mod Conversions
pub mod Meaning
pub mod Output
pub mod Buffer
pub mod Cprintf
pub mod Bounded
mod Tests
