-- ===== src/Codegen/RockwellC19/Shifts.antt =====
-- The entries of gen_RC19 (shared/src/gen_RC19.c): shifts and rotations.
use tools.Base.{ℕ, List, [], ◌∷◌, Option, none, some}
use tools.Cpu.{
  AddrMode, absolute, accumulator, absolute_indexed_x, direct_page, direct_page_indexed_x, implied,
}
use tools.Codegen.Call.{Call, o, ob, ow}

unfoldable pub asl : AddrMode → ℕ → Option (List Call)
asl accumulator value1 = some (o 0x0a ∷ [])
asl implied value1 = some (o 0x0a ∷ [])
asl direct_page value1 = some (ob 0x06 value1 ∷ [])
asl direct_page_indexed_x value1 = some (ob 0x16 value1 ∷ [])
asl absolute value1 = some (ow 0x0e value1 ∷ [])
asl absolute_indexed_x value1 = some (ow 0x1e value1 ∷ [])
asl _ value1 = none

unfoldable pub asr : AddrMode → Option (List Call)
asr implied = some (o 0x3a ∷ [])
asr accumulator = some (o 0x3a ∷ [])
asr _ = none

unfoldable pub lsr : AddrMode → ℕ → Option (List Call)
lsr implied value1 = some (o 0x4a ∷ [])
lsr accumulator value1 = some (o 0x4a ∷ [])
lsr direct_page value1 = some (ob 0x46 value1 ∷ [])
lsr direct_page_indexed_x value1 = some (ob 0x56 value1 ∷ [])
lsr absolute value1 = some (ow 0x4e value1 ∷ [])
lsr absolute_indexed_x value1 = some (ow 0x5e value1 ∷ [])
lsr _ value1 = none

unfoldable pub rol : AddrMode → ℕ → Option (List Call)
rol implied value1 = some (o 0x2a ∷ [])
rol accumulator value1 = some (o 0x2a ∷ [])
rol direct_page value1 = some (ob 0x26 value1 ∷ [])
rol direct_page_indexed_x value1 = some (ob 0x36 value1 ∷ [])
rol absolute value1 = some (ow 0x2e value1 ∷ [])
rol absolute_indexed_x value1 = some (ow 0x3e value1 ∷ [])
rol _ value1 = none

unfoldable pub ror : AddrMode → ℕ → Option (List Call)
ror implied value1 = some (o 0x6a ∷ [])
ror accumulator value1 = some (o 0x6a ∷ [])
ror direct_page value1 = some (ob 0x66 value1 ∷ [])
ror direct_page_indexed_x value1 = some (ob 0x76 value1 ∷ [])
ror absolute value1 = some (ow 0x6e value1 ∷ [])
ror absolute_indexed_x value1 = some (ow 0x7e value1 ∷ [])
ror _ value1 = none
