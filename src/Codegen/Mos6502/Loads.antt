-- ===== src/Codegen/Mos6502/Loads.antt =====
-- The entries of gen_02 (shared/src/gen_02.c): loads and stores.
use tools.Base.{ℕ, List, [], ◌∷◌, Option, none, some}
use tools.Cpu.{
  AddrMode, absolute, absolute_indexed_x, absolute_indexed_y, direct_page, direct_page_indexed_x,
  direct_page_indexed_y, direct_page_indexed_indirect_x, direct_page_indirect_indexed_y, immediate,
}
use tools.Codegen.Call.{Call, ob, ow}

unfoldable pub lda : AddrMode → ℕ → Option (List Call)
lda immediate value1 = some (ob 0xa9 value1 ∷ [])
lda absolute value1 = some (ow 0xad value1 ∷ [])
lda direct_page value1 = some (ob 0xa5 value1 ∷ [])
lda absolute_indexed_x value1 = some (ow 0xbd value1 ∷ [])
lda absolute_indexed_y value1 = some (ow 0xb9 value1 ∷ [])
lda direct_page_indexed_x value1 = some (ob 0xb5 value1 ∷ [])
lda direct_page_indexed_indirect_x value1 = some (ob 0xa1 value1 ∷ [])
lda direct_page_indirect_indexed_y value1 = some (ob 0xb1 value1 ∷ [])
lda _ value1 = some []

unfoldable pub ldx : AddrMode → ℕ → Option (List Call)
ldx immediate value1 = some (ob 0xa2 value1 ∷ [])
ldx absolute value1 = some (ow 0xae value1 ∷ [])
ldx direct_page value1 = some (ob 0xa6 value1 ∷ [])
ldx absolute_indexed_y value1 = some (ow 0xbe value1 ∷ [])
ldx direct_page_indexed_y value1 = some (ob 0xb6 value1 ∷ [])
ldx _ value1 = none

unfoldable pub ldy : AddrMode → ℕ → Option (List Call)
ldy immediate value1 = some (ob 0xa0 value1 ∷ [])
ldy absolute value1 = some (ow 0xac value1 ∷ [])
ldy direct_page value1 = some (ob 0xa4 value1 ∷ [])
ldy absolute_indexed_x value1 = some (ow 0xbc value1 ∷ [])
ldy direct_page_indexed_x value1 = some (ob 0xb4 value1 ∷ [])
ldy _ value1 = none

unfoldable pub sta : AddrMode → ℕ → Option (List Call)
sta absolute value1 = some (ow 0x8d value1 ∷ [])
sta direct_page value1 = some (ob 0x85 value1 ∷ [])
sta absolute_indexed_x value1 = some (ow 0x9d value1 ∷ [])
sta absolute_indexed_y value1 = some (ow 0x99 value1 ∷ [])
sta direct_page_indexed_x value1 = some (ob 0x95 value1 ∷ [])
sta direct_page_indexed_indirect_x value1 = some (ob 0x81 value1 ∷ [])
sta direct_page_indirect_indexed_y value1 = some (ob 0x91 value1 ∷ [])
sta _ value1 = none

unfoldable pub stx : AddrMode → ℕ → Option (List Call)
stx absolute value1 = some (ow 0x8e value1 ∷ [])
stx direct_page value1 = some (ob 0x86 value1 ∷ [])
stx direct_page_indexed_y value1 = some (ow 0x96 value1 ∷ [])
stx _ value1 = none

unfoldable pub sty : AddrMode → ℕ → Option (List Call)
sty absolute value1 = some (ow 0x8c value1 ∷ [])
sty direct_page value1 = some (ob 0x84 value1 ∷ [])
sty direct_page_indexed_x value1 = some (ob 0x94 value1 ∷ [])
sty _ value1 = none
