-- ===== src/Scanner.antt =====
-- The scanner as-c/src/scanner.c: its numbers.
mod Tests
pub mod Numbers
pub mod Digits
