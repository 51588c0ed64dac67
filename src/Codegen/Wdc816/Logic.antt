-- ===== src/Codegen/Wdc816/Logic.antt =====
-- The entries of gen_816 (shared/src/gen_816.c): bitwise logic.
use tools.Base.{ℕ, List, [], ◌∷◌, Option, none, some}
use tools.Cpu.{
  AddrMode, absolute, absolute_indexed_x, absolute_indexed_y, absolute_long,
  absolute_long_indexed_x, direct_page, direct_page_indexed_x, direct_page_indirect,
  direct_page_indirect_long, direct_page_indexed_indirect_x, direct_page_indirect_indexed_y,
  direct_page_indirect_long_indexed_y, immediate, stack_relative, stack_relative_indirect_indexed_y,
}
use tools.Codegen.State.{Globals}
use tools.Codegen.Call.{Call, ob, ow, ol, om}

unfoldable pub and : AddrMode → ℕ → Globals → Option (List Call)
and immediate value1 g = some (om 0x29 value1 g.longa ∷ [])
and absolute value1 g = some (ow 0x2d value1 ∷ [])
and absolute_long value1 g = some (ol 0x2f value1 ∷ [])
and direct_page value1 g = some (ob 0x25 value1 ∷ [])
and direct_page_indirect value1 g = some (ob 0x32 value1 ∷ [])
and direct_page_indirect_long value1 g = some (ob 0x27 value1 ∷ [])
and absolute_indexed_x value1 g = some (ow 0x3d value1 ∷ [])
and absolute_long_indexed_x value1 g = some (ol 0x3f value1 ∷ [])
and absolute_indexed_y value1 g = some (ow 0x39 value1 ∷ [])
and direct_page_indexed_x value1 g = some (ob 0x35 value1 ∷ [])
and direct_page_indexed_indirect_x value1 g = some (ob 0x21 value1 ∷ [])
and direct_page_indirect_indexed_y value1 g = some (ob 0x31 value1 ∷ [])
and direct_page_indirect_long_indexed_y value1 g = some (ob 0x37 value1 ∷ [])
and stack_relative value1 g = some (ob 0x23 value1 ∷ [])
and stack_relative_indirect_indexed_y value1 g = some (ob 0x33 value1 ∷ [])
and _ value1 g = none

unfoldable pub bit : AddrMode → ℕ → Globals → Option (List Call)
bit immediate value1 g = some (om 0x89 value1 g.longa ∷ [])
bit absolute value1 g = some (ow 0x2c value1 ∷ [])
bit direct_page value1 g = some (ob 0x24 value1 ∷ [])
bit absolute_indexed_x value1 g = some (ow 0x3c value1 ∷ [])
bit direct_page_indexed_x value1 g = some (ob 0x34 value1 ∷ [])
bit _ value1 g = none

unfoldable pub eor : AddrMode → ℕ → Globals → Option (List Call)
eor immediate value1 g = some (om 0x49 value1 g.longa ∷ [])
eor absolute value1 g = some (ow 0x4d value1 ∷ [])
eor absolute_long value1 g = some (ol 0x4f value1 ∷ [])
eor direct_page value1 g = some (ob 0x45 value1 ∷ [])
eor direct_page_indirect value1 g = some (ob 0x52 value1 ∷ [])
eor direct_page_indirect_long value1 g = some (ob 0x47 value1 ∷ [])
eor absolute_indexed_x value1 g = some (ow 0x5d value1 ∷ [])
eor absolute_long_indexed_x value1 g = some (ol 0x5f value1 ∷ [])
eor absolute_indexed_y value1 g = some (ow 0x59 value1 ∷ [])
eor direct_page_indexed_x value1 g = some (ob 0x55 value1 ∷ [])
eor direct_page_indexed_indirect_x value1 g = some (ob 0x41 value1 ∷ [])
eor direct_page_indirect_indexed_y value1 g = some (ob 0x51 value1 ∷ [])
eor direct_page_indirect_long_indexed_y value1 g = some (ob 0x57 value1 ∷ [])
eor stack_relative value1 g = some (ob 0x43 value1 ∷ [])
eor stack_relative_indirect_indexed_y value1 g = some (ob 0x53 value1 ∷ [])
eor _ value1 g = none

unfoldable pub ora : AddrMode → ℕ → Globals → Option (List Call)
ora immediate value1 g = some (om 0x09 value1 g.longa ∷ [])
ora absolute value1 g = some (ow 0x0d value1 ∷ [])
ora absolute_long value1 g = some (ol 0x0f value1 ∷ [])
ora direct_page value1 g = some (ob 0x05 value1 ∷ [])
ora direct_page_indirect value1 g = some (ob 0x12 value1 ∷ [])
ora direct_page_indirect_long value1 g = some (ob 0x07 value1 ∷ [])
ora absolute_indexed_x value1 g = some (ow 0x1d value1 ∷ [])
ora absolute_long_indexed_x value1 g = some (ol 0x1f value1 ∷ [])
ora absolute_indexed_y value1 g = some (ow 0x19 value1 ∷ [])
ora direct_page_indexed_x value1 g = some (ob 0x15 value1 ∷ [])
ora direct_page_indexed_indirect_x value1 g = some (ob 0x01 value1 ∷ [])
ora direct_page_indirect_indexed_y value1 g = some (ob 0x11 value1 ∷ [])
ora direct_page_indirect_long_indexed_y value1 g = some (ob 0x17 value1 ∷ [])
ora stack_relative value1 g = some (ob 0x03 value1 ∷ [])
ora stack_relative_indirect_indexed_y value1 g = some (ob 0x13 value1 ∷ [])
ora _ value1 g = none

unfoldable pub trb : AddrMode → ℕ → Option (List Call)
trb absolute value1 = some (ow 0x1c value1 ∷ [])
trb direct_page value1 = some (ob 0x14 value1 ∷ [])
trb _ value1 = none

unfoldable pub tsb : AddrMode → ℕ → Option (List Call)
tsb absolute value1 = some (ow 0x0c value1 ∷ [])
tsb direct_page value1 = some (ob 0x04 value1 ∷ [])
tsb _ value1 = none
