-- ===== src/Codegen/RockwellC19/Bits.antt =====
-- The entries of gen_RC19 (shared/src/gen_RC19.c): single bits of memory.
use Prim.Native.Nat.{bit_or}
use tools.Base.{ℕ, ◌*◌, List, [], ◌∷◌, Option, none, some}
use tools.Cpu.{
  AddrMode, block_move, bit_zero_page_relative, bit_zero_page, bit_absolute_relative, bit_absolute,
}
use tools.Codegen.Call.{Call, ob, obita, obitar, obitzr}

unfoldable pub bar : AddrMode → ℕ → ℕ → ℕ → Option (List Call)
bar bit_absolute_relative value1 value2 value3 = some (obitar 0xe2 value3 value2 value1 ∷ [])
bar _ value1 value2 value3 = none

unfoldable pub bas : AddrMode → ℕ → ℕ → ℕ → Option (List Call)
bas bit_absolute_relative value1 value2 value3 = some (obitar 0xf2 value3 value2 value1 ∷ [])
bas _ value1 value2 value3 = none

unfoldable pub bbr : AddrMode → ℕ → ℕ → ℕ → Option (List Call)
bbr bit_absolute_relative value1 value2 value3 = some (obitzr 0x0f value3 value2 value1 ∷ [])
bbr bit_zero_page_relative value1 value2 value3 = some (obitzr 0x0f value3 value2 value1 ∷ [])
bbr _ value1 value2 value3 = none

unfoldable pub bbs : AddrMode → ℕ → ℕ → ℕ → Option (List Call)
bbs bit_absolute_relative value1 value2 value3 = some (obitzr 0x8f value3 value2 value1 ∷ [])
bbs bit_zero_page_relative value1 value2 value3 = some (obitzr 0x8f value3 value2 value1 ∷ [])
bbs _ value1 value2 value3 = none

unfoldable pub rba : AddrMode → ℕ → ℕ → Option (List Call)
rba block_move value1 value2 = some (obita 0xc2 value2 value1 ∷ [])
rba bit_absolute value1 value2 = some (obita 0xc2 value2 value1 ∷ [])
rba _ value1 value2 = none

unfoldable pub rmb : AddrMode → ℕ → ℕ → Option (List Call)
rmb block_move value1 value2 = some (ob (bit_or 0x07 (value2 * 16)) value1 ∷ [])
rmb bit_zero_page value1 value2 = some (ob (bit_or 0x07 (value2 * 16)) value1 ∷ [])
rmb _ value1 value2 = none

unfoldable pub sba : AddrMode → ℕ → ℕ → Option (List Call)
sba block_move value1 value2 = some (obita 0xd2 value2 value1 ∷ [])
sba bit_absolute value1 value2 = some (obita 0xd2 value2 value1 ∷ [])
sba _ value1 value2 = none

unfoldable pub smb : AddrMode → ℕ → ℕ → Option (List Call)
smb block_move value1 value2 = some (ob (bit_or 0x87 (value2 * 16)) value1 ∷ [])
smb bit_zero_page value1 value2 = some (ob (bit_or 0x87 (value2 * 16)) value1 ∷ [])
smb _ value1 value2 = none
