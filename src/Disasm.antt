-- ===== src/Disasm.antt =====
-- The disassembler of the Oberon compiler, oc/src/disasm.c: how it reads instructions.
mod Tests
pub mod Decode
pub mod Whole
