-- ===== src/Codegen/Mos6502/Flags.antt =====
-- The entries of gen_02 (shared/src/gen_02.c): flags and processor state.
use tools.Base.{List, [], ◌∷◌, Option, none, some}
use tools.Cpu.{AddrMode, implied}
use tools.Codegen.Call.{Call, o}

unfoldable pub clc : AddrMode → Option (List Call)
clc implied = some (o 0x18 ∷ [])
clc _ = none

unfoldable pub cld : AddrMode → Option (List Call)
cld implied = some (o 0xd8 ∷ [])
cld _ = none

unfoldable pub cli : AddrMode → Option (List Call)
cli implied = some (o 0x58 ∷ [])
cli _ = none

unfoldable pub clv : AddrMode → Option (List Call)
clv implied = some (o 0xb8 ∷ [])
clv _ = none

unfoldable pub nop : AddrMode → Option (List Call)
nop implied = some (o 0xea ∷ [])
nop _ = none

unfoldable pub sec : AddrMode → Option (List Call)
sec implied = some (o 0x38 ∷ [])
sec _ = none

unfoldable pub sed : AddrMode → Option (List Call)
sed implied = some (o 0xf8 ∷ [])
sed _ = none

unfoldable pub sei : AddrMode → Option (List Call)
sei implied = some (o 0x78 ∷ [])
sei _ = none
