-- ===== src/Codegen.antt =====
-- shared/src/codegen.c and the instruction tables that it includes.
mod Tests
pub mod State
pub mod Emit
pub mod Call
pub mod Wdc816
pub mod Wdc65C02
pub mod Mos6502
pub mod Rockwell65C02
pub mod RockwellC19
pub mod Mode
pub mod Gen
pub mod Layout
pub mod Encoding
pub mod MachineCode
pub mod Truncation
pub mod Shape
pub mod Compat
pub mod Operand
pub mod Lengths
pub mod Branch
pub mod Errors
pub mod Relocation
pub mod Patch
pub mod ReadBack
pub mod Storage
