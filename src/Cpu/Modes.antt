-- ===== src/Cpu/Modes.antt =====
-- Statements about every addressing mode, as one tuple.
use tools.Cpu.{
  AddrMode, absolute, accumulator, absolute_indexed_x, absolute_indexed_y, absolute_long,
  absolute_long_indexed_x, absolute_indirect, absolute_indexed_indirect, direct_page,
  stack_direct_page_indirect, direct_page_indexed_x, direct_page_indexed_y, direct_page_indirect,
  direct_page_indirect_long, implied, program_counter_relative, program_counter_relative_long,
  absolute_indirect_long, block_move, direct_page_indexed_indirect_x,
  direct_page_indirect_indexed_y, direct_page_indirect_long_indexed_y, immediate, stack_relative,
  stack_relative_indirect_indexed_y, bit_zero_page_relative, bit_zero_page, bit_absolute_relative,
  bit_absolute, immediate_zero_page,
}

abbrev pub AllModes : (AddrMode → Type 0) → Type 0
AllModes P =
    P absolute
    × P accumulator
    × P absolute_indexed_x
    × P absolute_indexed_y
    × P absolute_long
    × P absolute_long_indexed_x
    × P absolute_indirect
    × P absolute_indexed_indirect
    × P direct_page
    × P stack_direct_page_indirect
    × P direct_page_indexed_x
    × P direct_page_indexed_y
    × P direct_page_indirect
    × P direct_page_indirect_long
    × P implied
    × P program_counter_relative
    × P program_counter_relative_long
    × P absolute_indirect_long
    × P block_move
    × P direct_page_indexed_indirect_x
    × P direct_page_indirect_indexed_y
    × P direct_page_indirect_long_indexed_y
    × P immediate
    × P stack_relative
    × P stack_relative_indirect_indexed_y
    × P bit_zero_page_relative
    × P bit_zero_page
    × P bit_absolute_relative
    × P bit_absolute
    × P immediate_zero_page

pub mode_by_cases : (P : AddrMode → Type 0) → AllModes P → (mode : AddrMode) → P mode
mode_by_cases P h absolute = h.0
mode_by_cases P h accumulator = h.1
mode_by_cases P h absolute_indexed_x = h.2
mode_by_cases P h absolute_indexed_y = h.3
mode_by_cases P h absolute_long = h.4
mode_by_cases P h absolute_long_indexed_x = h.5
mode_by_cases P h absolute_indirect = h.6
mode_by_cases P h absolute_indexed_indirect = h.7
mode_by_cases P h direct_page = h.8
mode_by_cases P h stack_direct_page_indirect = h.9
mode_by_cases P h direct_page_indexed_x = h.10
mode_by_cases P h direct_page_indexed_y = h.11
mode_by_cases P h direct_page_indirect = h.12
mode_by_cases P h direct_page_indirect_long = h.13
mode_by_cases P h implied = h.14
mode_by_cases P h program_counter_relative = h.15
mode_by_cases P h program_counter_relative_long = h.16
mode_by_cases P h absolute_indirect_long = h.17
mode_by_cases P h block_move = h.18
mode_by_cases P h direct_page_indexed_indirect_x = h.19
mode_by_cases P h direct_page_indirect_indexed_y = h.20
mode_by_cases P h direct_page_indirect_long_indexed_y = h.21
mode_by_cases P h immediate = h.22
mode_by_cases P h stack_relative = h.23
mode_by_cases P h stack_relative_indirect_indexed_y = h.24
mode_by_cases P h bit_zero_page_relative = h.25
mode_by_cases P h bit_zero_page = h.26
mode_by_cases P h bit_absolute_relative = h.27
mode_by_cases P h bit_absolute = h.28
mode_by_cases P h immediate_zero_page = h.29
