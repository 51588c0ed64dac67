-- ===== src/Interp.antt =====
-- The interpreter of the assembler's operations, as-c/src/interp.c, on the values of
-- as-c/src/value.c: expressions and what emits bytes.
mod Tests
pub mod Long
pub mod Object
pub mod Stack
pub mod Emit
pub mod Text
pub mod Run
pub mod Postfix
pub mod Values
pub mod Data
pub mod Escapes
pub mod Assemble
pub mod Lines
pub mod Flags
pub mod Branches
pub mod Sample
