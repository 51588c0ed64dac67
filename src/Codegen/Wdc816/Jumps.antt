-- ===== src/Codegen/Wdc816/Jumps.antt =====
-- The entries of gen_816 (shared/src/gen_816.c): jumps, calls, returns and traps.
use tools.Base.{ℕ, List, [], ◌∷◌, Option, none, some}
use tools.Cpu.{
  AddrMode, absolute, absolute_long, absolute_indirect, absolute_indexed_indirect, direct_page,
  implied, absolute_indirect_long, immediate,
}
use tools.Codegen.Call.{Call, o, ob, ow, ol, mark_reloc}

unfoldable pub brk : AddrMode → ℕ → Option (List Call)
brk implied value1 = some (o 0x00 ∷ [])
brk immediate value1 = some (ob 0x00 value1 ∷ [])
brk _ value1 = none

unfoldable pub cop : AddrMode → ℕ → Option (List Call)
cop immediate value1 = some (ob 0x02 value1 ∷ [])
cop _ value1 = none

unfoldable pub jmp : AddrMode → ℕ → Option (List Call)
jmp direct_page value1 = some (ow 0x4c value1 ∷ [])
jmp absolute value1 = some (ow 0x4c value1 ∷ [])
jmp absolute_indirect value1 = some (ow 0x6c value1 ∷ [])
jmp absolute_indexed_indirect value1 = some (ow 0x7c value1 ∷ [])
jmp absolute_long value1 = some (ol 0x5c value1 ∷ [])
jmp absolute_indirect_long value1 = some (ow 0xdc value1 ∷ [])
jmp _ value1 = none

unfoldable pub jml : AddrMode → ℕ → Option (List Call)
jml direct_page value1 = some (ol 0x5c value1 ∷ [])
jml absolute value1 = some (ol 0x5c value1 ∷ [])
jml absolute_long value1 = some (ol 0x5c value1 ∷ [])
jml absolute_indirect value1 = some (ow 0xdc value1 ∷ [])
jml absolute_indirect_long value1 = some (ow 0xdc value1 ∷ [])
jml _ value1 = none

unfoldable pub jsl : AddrMode → ℕ → Option (List Call)
jsl direct_page value1 = some (mark_reloc ∷ ol 0x22 value1 ∷ [])
jsl absolute value1 = some (mark_reloc ∷ ol 0x22 value1 ∷ [])
jsl absolute_long value1 = some (mark_reloc ∷ ol 0x22 value1 ∷ [])
jsl _ value1 = none

unfoldable pub jsr : AddrMode → ℕ → Option (List Call)
jsr direct_page value1 = some (mark_reloc ∷ ow 0x20 value1 ∷ [])
jsr absolute value1 = some (mark_reloc ∷ ow 0x20 value1 ∷ [])
jsr absolute_indexed_indirect value1 = some (ow 0xfc value1 ∷ [])
jsr absolute_long value1 = some (mark_reloc ∷ ol 0x22 value1 ∷ [])
jsr _ value1 = none

unfoldable pub rti : AddrMode → Option (List Call)
rti implied = some (o 0x40 ∷ [])
rti _ = none

unfoldable pub rtl : AddrMode → Option (List Call)
rtl implied = some (o 0x6b ∷ [])
rtl _ = none

unfoldable pub rts : AddrMode → Option (List Call)
rts implied = some (o 0x60 ∷ [])
rts _ = none

unfoldable pub wdm : AddrMode → ℕ → Option (List Call)
wdm immediate value1 = some (ob 0x42 value1 ∷ [])
wdm _ value1 = none
