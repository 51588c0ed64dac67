-- ===== src/Codegen/Wdc65C02/Stack.antt =====
-- The entries of gen_C02 (shared/src/gen_C02.c): pushes and pulls.
use tools.Base.{List, [], ◌∷◌, Option, none, some}
use tools.Cpu.{AddrMode, implied}
use tools.Codegen.Call.{Call, o}

unfoldable pub pha : AddrMode → Option (List Call)
pha implied = some (o 0x48 ∷ [])
pha _ = none

unfoldable pub php : AddrMode → Option (List Call)
php implied = some (o 0x08 ∷ [])
php _ = none

unfoldable pub phx : AddrMode → Option (List Call)
phx implied = some (o 0xda ∷ [])
phx _ = none

unfoldable pub phy : AddrMode → Option (List Call)
phy implied = some (o 0x5a ∷ [])
phy _ = none

unfoldable pub pla : AddrMode → Option (List Call)
pla implied = some (o 0x68 ∷ [])
pla _ = none

unfoldable pub plp : AddrMode → Option (List Call)
plp implied = some (o 0x28 ∷ [])
plp _ = none

unfoldable pub plx : AddrMode → Option (List Call)
plx implied = some (o 0xfa ∷ [])
plx _ = none

unfoldable pub ply : AddrMode → Option (List Call)
ply implied = some (o 0x7a ∷ [])
ply _ = none
