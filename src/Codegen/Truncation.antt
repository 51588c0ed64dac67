-- ===== src/Codegen/Truncation.antt =====
-- The operand of an instruction on memory, in as many bytes as its machine code has for it.
use tools.Base.{ℕ, ◌%◌, ◌^◌, ◌≡◌, Bool, true, false, List, [], ◌∷◌, length}
use tools.Cpu.{
  OpCode, AddrMode, block_move, bit_zero_page_relative, bit_zero_page, bit_absolute_relative,
  bit_absolute, immediate_zero_page, Machine,
}
use tools.Codegen.State.{Globals}
use tools.Codegen.Wdc816
use tools.Codegen.Wdc65C02
use tools.Codegen.Mos6502
use tools.Codegen.Rockwell65C02
use tools.Codegen.RockwellC19
use tools.Codegen.MachineCode.{table, code}
use tools.Codegen.Operand.{number}

-- the bytes behind the opcode hold the low bytes of the operand
abbrev pub HasLowBytes : ℕ → List ℕ → Type 0
HasLowBytes v [] = Unit
HasLowBytes v (op ∷ bs) = number bs ≡ v % 256 ^ length bs

-- the modes with several operands
abbrev pub is_compound : AddrMode → Bool
is_compound block_move = true
is_compound bit_zero_page_relative = true
is_compound bit_zero_page = true
is_compound bit_absolute_relative = true
is_compound bit_absolute = true
is_compound immediate_zero_page = true
is_compound _ = false

module _ (value1 value2 value3 : ℕ) (g : Globals) where
  abbrev Holds : Machine → OpCode → AddrMode → Type 0
  Holds machine op mode =
      is_compound mode ≡ false
      → HasLowBytes value1 (code (table machine op mode value1 value2 value3 g) g.addr)
