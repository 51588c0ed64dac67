-- ===== src/Parser.antt =====
-- The compiler of expressions in as-c/src/parser.c.
mod Tests
pub mod Rules
pub mod Syntax
pub mod Ends
pub mod RoundTrip
pub mod Termination
pub mod Lists
pub mod Pipeline
