-- ===== src/Klib.antt =====
-- kernel/klib.c: strings, memory and numbers. A byte is a number below 256: `char` has no sign on
-- this machine.
pub mod Strings
pub mod Compare
pub mod Numbers
pub mod Numerals
pub mod Memory
pub mod Format
mod Tests
