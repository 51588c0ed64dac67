-- ===== src/Codegen/Mos6502/Stack.antt =====
-- The entries of gen_02 (shared/src/gen_02.c): pushes and pulls.
use tools.Base.{List, [], ◌∷◌, Option, none, some}
use tools.Cpu.{AddrMode, implied}
use tools.Codegen.Call.{Call, o}

unfoldable pub pha : AddrMode → Option (List Call)
pha implied = some (o 0x48 ∷ [])
pha _ = none

unfoldable pub php : AddrMode → Option (List Call)
php implied = some (o 0x08 ∷ [])
php _ = none

unfoldable pub pla : AddrMode → Option (List Call)
pla implied = some (o 0x68 ∷ [])
pla _ = none

unfoldable pub plp : AddrMode → Option (List Call)
plp implied = some (o 0x28 ∷ [])
plp _ = none
