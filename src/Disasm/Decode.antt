-- ===== src/Disasm/Decode.antt =====
-- decode_instruction, update_processor_status and disassemble_instruction of oc/src/disasm.c.
use Prim.Native.Nat.{bit_and}
use tools.Base.{
  ℕ, ◌+◌, ◌*◌, Bool, true, false, not, List, [], ◌∷◌, Option, none, some, ◌>>=◌, ltb, ◌==◌, ◌||◌,
  if◌then◌else◌, get_elem?,
}
use tools.Cpu.{
  AddrMode, absolute, absolute_indexed_x, absolute_indexed_y, absolute_long, accumulator,
  direct_page, direct_page_indexed_indirect_x, direct_page_indexed_x, direct_page_indirect,
  direct_page_indirect_indexed_y, direct_page_indirect_long, direct_page_indirect_long_indexed_y,
  immediate, implied, program_counter_relative, program_counter_relative_long, stack_relative,
  stack_relative_indirect_indexed_y,
}

-- the fields of cpu_status
pub record ProcessorStatus : Type 0 where
  pub m_flag : Bool
  pub x_flag : Bool
  pub emulation_mode : Bool

abbrev pub member : ℕ → List ℕ → Bool
member n [] = false
member n (x ∷ xs) = (n == x) || member n xs

-- the labels of the switch, with the mode and the length that they set
abbrev pub cases : Bool → Bool → List (List ℕ × AddrMode × ℕ)
cases m x =
    (0x18 ∷ 0x38 ∷ 0xfb ∷ 0xea ∷ 0x40 ∷ 0x60 ∷ 0x6b ∷ [], implied, 1)
    ∷ (0x0a ∷ 0x4a ∷ 0x2a ∷ [], accumulator, 1)
    ∷ (0x21 ∷ 0x41 ∷ 0x01 ∷ [], direct_page_indexed_indirect_x, 2)
    ∷ (0x00 ∷ [], immediate, 2)
    ∷ (0xa9 ∷ 0x69 ∷ 0xe9 ∷ 0xc9 ∷ 0x29 ∷ 0x49 ∷ 0x09 ∷ [], immediate, (if m then 2 else 3))
    ∷ (0xa2 ∷ 0xa0 ∷ 0xe0 ∷ 0xc0 ∷ [], immediate, (if x then 2 else 3))
    ∷ (0xc2 ∷ 0xe2 ∷ [], immediate, 2)
    ∷ (
      0x10 ∷ 0x30 ∷ 0x50 ∷ 0x70 ∷ 0x90 ∷ 0xb0 ∷ 0xd0 ∷ 0xf0 ∷ 0x80 ∷ [],
      program_counter_relative,
      2,
    )
    ∷ (0x82 ∷ [], program_counter_relative_long, 3)
    ∷ (
      0xa5 ∷ 0x85 ∷ 0xa6 ∷ 0xa4 ∷ 0x65 ∷ 0xe5 ∷ 0x25 ∷ 0x45 ∷ 0x05 ∷ 0x06 ∷ 0x46 ∷ 0x26 ∷ [],
      direct_page,
      2,
    )
    ∷ (
      0xb5 ∷ 0x95 ∷ 0x75 ∷ 0xf5 ∷ 0x35 ∷ 0x55 ∷ 0x15 ∷ 0x16 ∷ 0x56 ∷ 0x36 ∷ [],
      direct_page_indexed_x,
      2,
    )
    ∷ (0xad ∷ 0x8d ∷ 0x6d ∷ 0xed ∷ 0x20 ∷ 0x2d ∷ 0x4d ∷ 0x0d ∷ 0x0e ∷ 0x4e ∷ 0x2e ∷ [], absolute, 3)
    ∷ (0x22 ∷ [], absolute_long, 4)
    ∷ (
      0xbd ∷ 0x9d ∷ 0x7d ∷ 0xfd ∷ 0x3d ∷ 0x5d ∷ 0x1d ∷ 0x1e ∷ 0x5e ∷ 0x3e ∷ [],
      absolute_indexed_x,
      3,
    )
    ∷ (0xb9 ∷ 0x99 ∷ 0x79 ∷ 0xf9 ∷ 0x39 ∷ 0x59 ∷ 0x19 ∷ [], absolute_indexed_y, 3)
    ∷ (0xb2 ∷ 0x92 ∷ 0x72 ∷ 0xf2 ∷ 0x32 ∷ 0x52 ∷ 0x12 ∷ [], direct_page_indirect, 2)
    ∷ (0x07 ∷ 0xa7 ∷ 0x87 ∷ 0x27 ∷ 0x47 ∷ [], direct_page_indirect_long, 2)
    ∷ (0xb7 ∷ 0x97 ∷ 0x37 ∷ 0x57 ∷ 0x17 ∷ [], direct_page_indirect_long_indexed_y, 2)
    ∷ (0xb1 ∷ 0x91 ∷ 0x31 ∷ 0x51 ∷ 0x11 ∷ [], direct_page_indirect_indexed_y, 2)
    ∷ (0xa3 ∷ 0x83 ∷ 0xc3 ∷ [], stack_relative, 2)
    ∷ (0xb3 ∷ 0x93 ∷ [], stack_relative_indirect_indexed_y, 2)
    ∷ []

abbrev pub find_case : ℕ → List (List ℕ × AddrMode × ℕ) → Option (AddrMode × ℕ)
find_case op [] = none
find_case op ((labels, mode, length) ∷ rest) =
    let later = find_case op rest in if member op labels then some (mode, length) else later

-- the case of an opcode, if it has one
unfoldable pub labelled : ProcessorStatus → ℕ → Option (AddrMode × ℕ)
labelled status op = find_case op (cases status.m_flag status.x_flag)

abbrev pub or_default : Option (AddrMode × ℕ) → AddrMode × ℕ
or_default none = (implied, 1)
or_default (some r) = r

unfoldable pub decode_instruction : ProcessorStatus → ℕ → AddrMode × ℕ
decode_instruction status op = or_default (labelled status op)

abbrev pub has_bit : ℕ → ℕ → Bool
has_bit n bit = not (bit_and n bit == 0)

unfoldable pub update_processor_status : ℕ → ℕ → ProcessorStatus → ProcessorStatus
update_processor_status op operand s =
    if op == 0xfb
    then record s { emulation_mode = false }
    else if op == 0xe2
    then record s {
      m_flag = if has_bit operand 0x20 then true else s.m_flag;
      x_flag = if has_bit operand 0x10 then true else s.x_flag;
    }
    else if op == 0xc2
    then record s {
      m_flag = if has_bit operand 0x20 then false else s.m_flag;
      x_flag = if has_bit operand 0x10 then false else s.x_flag;
    }
    else s

-- Without the mnemonic, which byte_to_opcode looks up for the listing.
pub record DisasmInstr : Type 0 where
  pub address : ℕ
  pub opcode : ℕ
  pub mode : AddrMode
  pub length : ℕ
  pub value : ℕ

abbrev pub code_org : ℕ
code_org = 0

-- `code[i]` if the condition holds and else 0; `none` is an access outside the code
abbrev pub operand : Bool → List ℕ → ℕ → Option ℕ
operand false code i = some 0
operand true code i = get_elem? code i

-- The operands are bytes, so that the sum is the bitwise or of the shifted ones.
abbrev pub combined : ℕ → ℕ → ℕ → ℕ → ℕ
combined length a b c =
    if length == 1
    then 0
    else if length == 2
    then a
    else if length == 3
    then a + b * 256
    else a + b * 256 + c * 0x1_0000

abbrev pub updated : ℕ → ℕ → ProcessorStatus → ProcessorStatus
updated op value s =
    if op == 0xc2 || (op == 0xe2 || op == 0xfb) then update_processor_status op value s else s

-- the rest of the function, from the opcode and what decode_instruction sets
abbrev pub instruction_at :
    ProcessorStatus → List ℕ → ℕ → ℕ → AddrMode × ℕ → Option (DisasmInstr × ProcessorStatus)
instruction_at s code pc op (mode, length) = operand (ltb 1 length) code (pc + 1) >>= λ a.
    operand (ltb 2 length) code (pc + 2) >>= λ b. operand (ltb 3 length) code (pc + 3) >>= λ c.
    let value = combined length a b c in
    some (
      record { address = code_org + pc; opcode = op; mode = mode; length = length; value = value },
      updated op value s,
    )

unfoldable pub disassemble_instruction :
    ProcessorStatus → List ℕ → ℕ → Option (DisasmInstr × ProcessorStatus)
disassemble_instruction s code pc =
    get_elem? code pc >>= λ op. instruction_at s code pc op (decode_instruction s op)
