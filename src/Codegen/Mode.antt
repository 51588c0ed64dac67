-- ===== src/Codegen/Mode.antt =====
-- The choice of the addressing mode: the first half of codegen_gen, and codegen_params.
use tools.Base.{ℕ, Bool, true, false, ◌&&◌, ◌||◌, not, if◌then◌else◌, int_lt, int_gt}
use tools.Cpu.{
  AddrMode, absolute, accumulator, absolute_indexed_x, absolute_indexed_y, absolute_long_indexed_x,
  absolute_indirect, absolute_indirect_long, absolute_indexed_indirect, direct_page,
  direct_page_indexed_x, direct_page_indexed_y, direct_page_indexed_indirect_x, implied, block_move,
  bit_zero_page_relative, bit_zero_page, bit_absolute_relative, bit_absolute, immediate_zero_page,
  Modifier, m_byte, m_direct, m_absolute, m_word, m_long,
}

unfoldable pub codegen_params : AddrMode → ℕ
codegen_params accumulator = 0
codegen_params implied = 0
codegen_params block_move = 2
codegen_params bit_zero_page_relative = 3
codegen_params bit_zero_page = 2
codegen_params bit_absolute_relative = 3
codegen_params bit_absolute = 2
codegen_params immediate_zero_page = 2
codegen_params _ = 1

-- The argument is a signed int: a negative value counts as direct page.
unfoldable pub is_dp : ℕ → Bool
is_dp addr = int_lt addr 0x100

unfoldable pub is_long_data : ℕ → Bool
is_long_data addr = int_gt addr 0xffff

abbrev pub is_direct : Modifier → Bool
is_direct m_direct = true
is_direct _ = false

abbrev pub is_byte : Modifier → Bool
is_byte m_byte = true
is_byte _ = false

abbrev pub is_absolute : Modifier → Bool
is_absolute m_absolute = true
is_absolute _ = false

abbrev pub is_word : Modifier → Bool
is_word m_word = true
is_word _ = false

abbrev pub is_long : Modifier → Bool
is_long m_long = true
is_long _ = false

-- `is_dp(value1) && ((modifier != MAbsolute) && (modifier != MWord))`
abbrev pub fits_dp : Modifier → ℕ → Bool
fits_dp m value1 = is_dp value1 && (not (is_absolute m) && not (is_word m))

-- AbsoluteIndirect stays as it is under the modifiers for the direct page.
unfoldable pub resolve : AddrMode → Modifier → ℕ → AddrMode
resolve absolute m value1 =
    if is_direct m || is_byte m
    then direct_page
    else if fits_dp m value1
    then direct_page
    else absolute
resolve absolute_indexed_x m value1 =
    if is_direct m
    then direct_page_indexed_x
    else if fits_dp m value1
    then direct_page_indexed_x
    else if is_long m || int_gt value1 0xffff
    then absolute_long_indexed_x
    else absolute_indexed_x
resolve absolute_indexed_y m value1 =
    if is_direct m
    then direct_page_indexed_y
    else if fits_dp m value1
    then direct_page_indexed_y
    else absolute_indexed_y
resolve absolute_indexed_indirect m value1 =
    if is_direct m
    then direct_page_indexed_indirect_x
    else if is_dp value1 && not (is_absolute m)
    then direct_page_indexed_indirect_x
    else absolute_indexed_indirect
resolve absolute_indirect m value1 =
    if is_long m
    then absolute_indirect_long
    else if is_long_data value1 && not (is_absolute m)
    then absolute_indirect_long
    else absolute_indirect
resolve mode m value1 = mode
