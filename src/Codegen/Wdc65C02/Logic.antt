-- ===== src/Codegen/Wdc65C02/Logic.antt =====
-- The entries of gen_C02 (shared/src/gen_C02.c): bitwise logic.
use tools.Base.{ℕ, List, [], ◌∷◌, Option, none, some}
use tools.Cpu.{
  AddrMode, absolute, absolute_indexed_x, absolute_indexed_y, direct_page, direct_page_indexed_x,
  direct_page_indirect, direct_page_indexed_indirect_x, direct_page_indirect_indexed_y, immediate,
}
use tools.Codegen.Call.{Call, ob, ow}

unfoldable pub and : AddrMode → ℕ → Option (List Call)
and immediate value1 = some (ob 0x29 value1 ∷ [])
and absolute value1 = some (ow 0x2d value1 ∷ [])
and direct_page value1 = some (ob 0x25 value1 ∷ [])
and direct_page_indirect value1 = some (ob 0x32 value1 ∷ [])
and absolute_indexed_x value1 = some (ow 0x3d value1 ∷ [])
and absolute_indexed_y value1 = some (ow 0x39 value1 ∷ [])
and direct_page_indexed_x value1 = some (ob 0x35 value1 ∷ [])
and direct_page_indexed_indirect_x value1 = some (ob 0x21 value1 ∷ [])
and direct_page_indirect_indexed_y value1 = some (ob 0x31 value1 ∷ [])
and _ value1 = none

unfoldable pub bit : AddrMode → ℕ → Option (List Call)
bit immediate value1 = some (ob 0x89 value1 ∷ [])
bit absolute value1 = some (ow 0x2c value1 ∷ [])
bit direct_page value1 = some (ob 0x24 value1 ∷ [])
bit absolute_indexed_x value1 = some (ow 0x3c value1 ∷ [])
bit direct_page_indexed_x value1 = some (ob 0x34 value1 ∷ [])
bit _ value1 = none

unfoldable pub eor : AddrMode → ℕ → Option (List Call)
eor immediate value1 = some (ob 0x49 value1 ∷ [])
eor absolute value1 = some (ow 0x4d value1 ∷ [])
eor direct_page value1 = some (ob 0x45 value1 ∷ [])
eor direct_page_indirect value1 = some (ob 0x52 value1 ∷ [])
eor absolute_indexed_x value1 = some (ow 0x5d value1 ∷ [])
eor absolute_indexed_y value1 = some (ow 0x59 value1 ∷ [])
eor direct_page_indexed_x value1 = some (ob 0x55 value1 ∷ [])
eor direct_page_indexed_indirect_x value1 = some (ob 0x41 value1 ∷ [])
eor direct_page_indirect_indexed_y value1 = some (ob 0x51 value1 ∷ [])
eor _ value1 = none

unfoldable pub ora : AddrMode → ℕ → Option (List Call)
ora immediate value1 = some (ob 0x09 value1 ∷ [])
ora absolute value1 = some (ow 0x0d value1 ∷ [])
ora direct_page value1 = some (ob 0x05 value1 ∷ [])
ora direct_page_indirect value1 = some (ob 0x12 value1 ∷ [])
ora absolute_indexed_x value1 = some (ow 0x1d value1 ∷ [])
ora absolute_indexed_y value1 = some (ow 0x19 value1 ∷ [])
ora direct_page_indexed_x value1 = some (ob 0x15 value1 ∷ [])
ora direct_page_indexed_indirect_x value1 = some (ob 0x01 value1 ∷ [])
ora direct_page_indirect_indexed_y value1 = some (ob 0x11 value1 ∷ [])
ora _ value1 = none

unfoldable pub trb : AddrMode → ℕ → Option (List Call)
trb absolute value1 = some (ow 0x1c value1 ∷ [])
trb direct_page value1 = some (ob 0x14 value1 ∷ [])
trb _ value1 = none

unfoldable pub tsb : AddrMode → ℕ → Option (List Call)
tsb absolute value1 = some (ow 0x0c value1 ∷ [])
tsb direct_page value1 = some (ob 0x04 value1 ∷ [])
tsb _ value1 = none
