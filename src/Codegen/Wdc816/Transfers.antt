-- ===== src/Codegen/Wdc816/Transfers.antt =====
-- The entries of gen_816 (shared/src/gen_816.c): transfers between registers and block moves.
use tools.Base.{ℕ, List, [], ◌∷◌, Option, none, some}
use tools.Cpu.{AddrMode, implied, block_move}
use tools.Codegen.Call.{Call, o, omove}

unfoldable pub mvn : AddrMode → ℕ → ℕ → Option (List Call)
mvn block_move value1 value2 = some (omove 0x54 value2 value1 ∷ [])
mvn _ value1 value2 = none

unfoldable pub mvp : AddrMode → ℕ → ℕ → Option (List Call)
mvp block_move value1 value2 = some (omove 0x44 value2 value1 ∷ [])
mvp _ value1 value2 = none

unfoldable pub tax : AddrMode → Option (List Call)
tax implied = some (o 0xaa ∷ [])
tax _ = none

unfoldable pub tay : AddrMode → Option (List Call)
tay implied = some (o 0xa8 ∷ [])
tay _ = none

unfoldable pub tad : AddrMode → Option (List Call)
tad implied = some (o 0x5b ∷ [])
tad _ = none

unfoldable pub tas : AddrMode → Option (List Call)
tas implied = some (o 0x1b ∷ [])
tas _ = none

unfoldable pub tda : AddrMode → Option (List Call)
tda implied = some (o 0x7b ∷ [])
tda _ = none

unfoldable pub tsa : AddrMode → Option (List Call)
tsa implied = some (o 0x3b ∷ [])
tsa _ = none

unfoldable pub tsx : AddrMode → Option (List Call)
tsx implied = some (o 0xba ∷ [])
tsx _ = none

unfoldable pub txa : AddrMode → Option (List Call)
txa implied = some (o 0x8a ∷ [])
txa _ = none

unfoldable pub txs : AddrMode → Option (List Call)
txs implied = some (o 0x9a ∷ [])
txs _ = none

unfoldable pub txy : AddrMode → Option (List Call)
txy implied = some (o 0x9b ∷ [])
txy _ = none

unfoldable pub tya : AddrMode → Option (List Call)
tya implied = some (o 0x98 ∷ [])
tya _ = none

unfoldable pub tyx : AddrMode → Option (List Call)
tyx implied = some (o 0xbb ∷ [])
tyx _ = none

unfoldable pub swa : AddrMode → Option (List Call)
swa implied = some (o 0xeb ∷ [])
swa _ = none
