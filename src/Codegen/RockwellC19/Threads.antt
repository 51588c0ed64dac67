-- ===== src/Codegen/RockwellC19/Threads.antt =====
-- The entries of gen_RC19 (shared/src/gen_RC19.c): threaded code.
use tools.Base.{List, [], ◌∷◌, Option, none, some}
use tools.Cpu.{AddrMode, implied}
use tools.Codegen.Call.{Call, o}

unfoldable pub ini : AddrMode → Option (List Call)
ini implied = some (o 0xbb ∷ [])
ini _ = none

unfoldable pub lii : AddrMode → Option (List Call)
lii implied = some (o 0x9b ∷ [])
lii _ = none

unfoldable pub nxt : AddrMode → Option (List Call)
nxt implied = some (o 0x8b ∷ [])
nxt _ = none

unfoldable pub phi : AddrMode → Option (List Call)
phi implied = some (o 0xcb ∷ [])
phi _ = none

unfoldable pub pia : AddrMode → Option (List Call)
pia implied = some (o 0xfb ∷ [])
pia _ = none

unfoldable pub pli : AddrMode → Option (List Call)
pli implied = some (o 0xdb ∷ [])
pli _ = none

unfoldable pub tip : AddrMode → Option (List Call)
tip implied = some (o 0x03 ∷ [])
tip _ = none
