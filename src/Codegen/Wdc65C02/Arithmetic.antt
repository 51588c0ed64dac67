-- ===== src/Codegen/Wdc65C02/Arithmetic.antt =====
-- The entries of gen_C02 (shared/src/gen_C02.c): arithmetic and comparison.
use tools.Base.{ℕ, List, [], ◌∷◌, Option, none, some}
use tools.Cpu.{
  AddrMode, absolute, accumulator, absolute_indexed_x, absolute_indexed_y, direct_page,
  direct_page_indexed_x, direct_page_indirect, implied, direct_page_indexed_indirect_x,
  direct_page_indirect_indexed_y, immediate,
}
use tools.Codegen.Call.{Call, o, ob, ow}

unfoldable pub adc : AddrMode → ℕ → Option (List Call)
adc immediate value1 = some (ob 0x69 value1 ∷ [])
adc absolute value1 = some (ow 0x6d value1 ∷ [])
adc direct_page value1 = some (ob 0x65 value1 ∷ [])
adc direct_page_indirect value1 = some (ob 0x72 value1 ∷ [])
adc absolute_indexed_x value1 = some (ow 0x7d value1 ∷ [])
adc absolute_indexed_y value1 = some (ow 0x79 value1 ∷ [])
adc direct_page_indexed_x value1 = some (ob 0x75 value1 ∷ [])
adc direct_page_indexed_indirect_x value1 = some (ob 0x61 value1 ∷ [])
adc direct_page_indirect_indexed_y value1 = some (ob 0x71 value1 ∷ [])
adc _ value1 = none

unfoldable pub cmp : AddrMode → ℕ → Option (List Call)
cmp immediate value1 = some (ob 0xc9 value1 ∷ [])
cmp absolute value1 = some (ow 0xcd value1 ∷ [])
cmp direct_page value1 = some (ob 0xc5 value1 ∷ [])
cmp direct_page_indirect value1 = some (ob 0xd2 value1 ∷ [])
cmp absolute_indexed_x value1 = some (ow 0xdd value1 ∷ [])
cmp absolute_indexed_y value1 = some (ow 0xd9 value1 ∷ [])
cmp direct_page_indexed_x value1 = some (ob 0xd5 value1 ∷ [])
cmp direct_page_indexed_indirect_x value1 = some (ob 0xc1 value1 ∷ [])
cmp direct_page_indirect_indexed_y value1 = some (ob 0xd1 value1 ∷ [])
cmp _ value1 = none

unfoldable pub cpx : AddrMode → ℕ → Option (List Call)
cpx immediate value1 = some (ob 0xe0 value1 ∷ [])
cpx absolute value1 = some (ow 0xec value1 ∷ [])
cpx direct_page value1 = some (ob 0xe4 value1 ∷ [])
cpx _ value1 = none

unfoldable pub cpy : AddrMode → ℕ → Option (List Call)
cpy immediate value1 = some (ob 0xc0 value1 ∷ [])
cpy absolute value1 = some (ow 0xcc value1 ∷ [])
cpy direct_page value1 = some (ob 0xc4 value1 ∷ [])
cpy _ value1 = none

unfoldable pub dec : AddrMode → ℕ → Option (List Call)
dec accumulator value1 = some (o 0x3a ∷ [])
dec implied value1 = some (o 0x3a ∷ [])
dec absolute value1 = some (ow 0xce value1 ∷ [])
dec direct_page value1 = some (ob 0xc6 value1 ∷ [])
dec absolute_indexed_x value1 = some (ow 0xde value1 ∷ [])
dec direct_page_indexed_x value1 = some (ob 0xd6 value1 ∷ [])
dec _ value1 = none

unfoldable pub dex : AddrMode → Option (List Call)
dex implied = some (o 0xca ∷ [])
dex _ = none

unfoldable pub dey : AddrMode → Option (List Call)
dey implied = some (o 0x88 ∷ [])
dey _ = none

unfoldable pub inc : AddrMode → ℕ → Option (List Call)
inc accumulator value1 = some (o 0x1a ∷ [])
inc implied value1 = some (o 0x1a ∷ [])
inc absolute value1 = some (ow 0xee value1 ∷ [])
inc direct_page value1 = some (ob 0xe6 value1 ∷ [])
inc absolute_indexed_x value1 = some (ow 0xfe value1 ∷ [])
inc direct_page_indexed_x value1 = some (ob 0xf6 value1 ∷ [])
inc _ value1 = none

unfoldable pub inx : AddrMode → Option (List Call)
inx implied = some (o 0xe8 ∷ [])
inx _ = none

unfoldable pub iny : AddrMode → Option (List Call)
iny implied = some (o 0xc8 ∷ [])
iny _ = none

unfoldable pub sbc : AddrMode → ℕ → Option (List Call)
sbc immediate value1 = some (ob 0xe9 value1 ∷ [])
sbc absolute value1 = some (ow 0xed value1 ∷ [])
sbc direct_page value1 = some (ob 0xe5 value1 ∷ [])
sbc direct_page_indirect value1 = some (ob 0xf2 value1 ∷ [])
sbc absolute_indexed_x value1 = some (ow 0xfd value1 ∷ [])
sbc absolute_indexed_y value1 = some (ow 0xf9 value1 ∷ [])
sbc direct_page_indexed_x value1 = some (ob 0xf5 value1 ∷ [])
sbc direct_page_indexed_indirect_x value1 = some (ob 0xe1 value1 ∷ [])
sbc direct_page_indirect_indexed_y value1 = some (ob 0xf1 value1 ∷ [])
sbc _ value1 = none
