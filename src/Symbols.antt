-- ===== src/Symbols.antt =====
-- The symbol table of the assembler: the red-black tree that as-c/src/value.c calls a map.
pub mod Tree
pub mod Map
pub mod Entries
pub mod Sorted
pub mod Lookup
pub mod Balance
pub mod Depth
pub mod Build
pub mod Debug
mod Tests
pub mod Laws
