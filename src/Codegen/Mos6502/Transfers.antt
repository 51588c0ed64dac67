-- ===== src/Codegen/Mos6502/Transfers.antt =====
-- The entries of gen_02 (shared/src/gen_02.c): transfers between registers and block moves.
use tools.Base.{List, [], ◌∷◌, Option, none, some}
use tools.Cpu.{AddrMode, implied}
use tools.Codegen.Call.{Call, o}

unfoldable pub tax : AddrMode → Option (List Call)
tax implied = some (o 0xaa ∷ [])
tax _ = none

unfoldable pub tay : AddrMode → Option (List Call)
tay implied = some (o 0xa8 ∷ [])
tay _ = none

unfoldable pub tsx : AddrMode → Option (List Call)
tsx implied = some (o 0xba ∷ [])
tsx _ = none

unfoldable pub txa : AddrMode → Option (List Call)
txa implied = some (o 0x8a ∷ [])
txa _ = none

unfoldable pub txs : AddrMode → Option (List Call)
txs implied = some (o 0x9a ∷ [])
txs _ = none

unfoldable pub tya : AddrMode → Option (List Call)
tya implied = some (o 0x98 ∷ [])
tya _ = none
