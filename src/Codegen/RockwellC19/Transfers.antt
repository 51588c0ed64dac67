-- ===== src/Codegen/RockwellC19/Transfers.antt =====
-- The entries of gen_RC19 (shared/src/gen_RC19.c): transfers between registers and block moves.
use tools.Base.{ℕ, List, [], ◌∷◌, Option, none, some}
use tools.Cpu.{AddrMode, direct_page_indexed_x, implied}
use tools.Codegen.Call.{Call, o, ob}

unfoldable pub exc : AddrMode → ℕ → Option (List Call)
exc direct_page_indexed_x value1 = some (ob 0xd4 value1 ∷ [])
exc _ value1 = none

unfoldable pub taw : AddrMode → Option (List Call)
taw implied = some (o 0x62 ∷ [])
taw _ = none

unfoldable pub tax : AddrMode → Option (List Call)
tax implied = some (o 0xaa ∷ [])
tax _ = none

unfoldable pub tay : AddrMode → Option (List Call)
tay implied = some (o 0xa8 ∷ [])
tay _ = none

unfoldable pub tsx : AddrMode → Option (List Call)
tsx implied = some (o 0xba ∷ [])
tsx _ = none

unfoldable pub twa : AddrMode → Option (List Call)
twa implied = some (o 0x72 ∷ [])
twa _ = none

unfoldable pub txa : AddrMode → Option (List Call)
txa implied = some (o 0x8a ∷ [])
txa _ = none

unfoldable pub txs : AddrMode → Option (List Call)
txs implied = some (o 0x9a ∷ [])
txs _ = none

unfoldable pub tya : AddrMode → Option (List Call)
tya implied = some (o 0x98 ∷ [])
tya _ = none
