-- ===== src/Codegen/Wdc816/Flags.antt =====
-- The entries of gen_816 (shared/src/gen_816.c): flags and processor state.
use tools.Base.{ℕ, List, [], ◌∷◌, Option, none, some}
use tools.Cpu.{AddrMode, implied, immediate}
use tools.Codegen.Call.{Call, o, ob}

unfoldable pub clc : AddrMode → Option (List Call)
clc implied = some (o 0x18 ∷ [])
clc _ = none

unfoldable pub cld : AddrMode → Option (List Call)
cld implied = some (o 0xd8 ∷ [])
cld _ = none

unfoldable pub cli : AddrMode → Option (List Call)
cli implied = some (o 0x58 ∷ [])
cli _ = none

unfoldable pub clv : AddrMode → Option (List Call)
clv implied = some (o 0xb8 ∷ [])
clv _ = none

unfoldable pub nop : AddrMode → Option (List Call)
nop implied = some (o 0xea ∷ [])
nop _ = none

unfoldable pub rep : AddrMode → ℕ → Option (List Call)
rep immediate value1 = some (ob 0xc2 value1 ∷ [])
rep _ value1 = none

unfoldable pub sec : AddrMode → Option (List Call)
sec implied = some (o 0x38 ∷ [])
sec _ = none

unfoldable pub sed : AddrMode → Option (List Call)
sed implied = some (o 0xf8 ∷ [])
sed _ = none

unfoldable pub sei : AddrMode → Option (List Call)
sei implied = some (o 0x78 ∷ [])
sei _ = none

unfoldable pub sep : AddrMode → ℕ → Option (List Call)
sep immediate value1 = some (ob 0xe2 value1 ∷ [])
sep _ value1 = none

unfoldable pub stp : AddrMode → Option (List Call)
stp implied = some (o 0xdb ∷ [])
stp _ = none

unfoldable pub wai : AddrMode → Option (List Call)
wai implied = some (o 0xcb ∷ [])
wai _ = none

unfoldable pub xce : AddrMode → Option (List Call)
xce implied = some (o 0xfb ∷ [])
xce _ = none
