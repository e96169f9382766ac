-- ===== src/Console.antt =====
-- kern/console.c: the console's input ring and its text-mode display.
pub mod Input
pub mod Display
pub mod Keyboard
pub mod Setup
pub mod Getchar
pub mod Terminal
mod Tests
