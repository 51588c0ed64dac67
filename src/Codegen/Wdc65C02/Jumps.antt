-- ===== src/Codegen/Wdc65C02/Jumps.antt =====
-- The entries of gen_C02 (shared/src/gen_C02.c): jumps, calls, returns and traps.
use tools.Base.{ℕ, List, [], ◌∷◌, Option, none, some}
use tools.Cpu.{
  AddrMode, absolute, absolute_indirect, absolute_indexed_indirect, direct_page, implied, immediate,
}
use tools.Codegen.Call.{Call, o, ob, ow}

unfoldable pub brk : AddrMode → ℕ → Option (List Call)
brk implied value1 = some (o 0x00 ∷ [])
brk immediate value1 = some (ob 0x00 value1 ∷ [])
brk _ value1 = none

unfoldable pub jmp : AddrMode → ℕ → Option (List Call)
jmp direct_page value1 = some (ow 0x4c value1 ∷ [])
jmp absolute value1 = some (ow 0x4c value1 ∷ [])
jmp absolute_indirect value1 = some (ow 0x6c value1 ∷ [])
jmp absolute_indexed_indirect value1 = some (ow 0x7c value1 ∷ [])
jmp _ value1 = none

unfoldable pub jsr : AddrMode → ℕ → Option (List Call)
jsr direct_page value1 = some (ow 0x20 value1 ∷ [])
jsr absolute value1 = some (ow 0x20 value1 ∷ [])
jsr _ value1 = none

unfoldable pub rti : AddrMode → Option (List Call)
rti implied = some (o 0x40 ∷ [])
rti _ = none

unfoldable pub rts : AddrMode → Option (List Call)
rts implied = some (o 0x60 ∷ [])
rts _ = none
