-- ===== src/Codegen/Operand.antt =====
-- The operand of an instruction on memory, read back from the machine code.
use tools.Base.{ℕ, ◌+◌, ◌*◌, ◌<◌, ◌≡◌, Bool, true, false, List, [], ◌∷◌, arith}
use tools.Cpu.{
  OpCode, adc, bcc, bcs, beq, bmi, bne, bpl, bvc, bvs, bra, brl, per, jsb, jmp, jml, jpi, AddrMode,
  absolute, absolute_indexed_x, absolute_indexed_y, absolute_long, absolute_long_indexed_x,
  absolute_indirect, absolute_indexed_indirect, direct_page, direct_page_indexed_x,
  direct_page_indexed_y, direct_page_indirect, direct_page_indirect_long, absolute_indirect_long,
  direct_page_indexed_indirect_x, direct_page_indirect_indexed_y,
  direct_page_indirect_long_indexed_y, m_none, Instr, Machine, em_816, em_c02, em_02, em_rc02,
  em_rc01, em_rc19, em_other,
}
use tools.Cpu.Modes.{AllModes, mode_by_cases}
use tools.Codegen.State.{Globals}
use tools.Codegen.Mode.{resolve, is_dp}
use tools.Codegen.Wdc816
use tools.Codegen.Wdc65C02
use tools.Codegen.Mos6502
use tools.Codegen.Rockwell65C02
use tools.Codegen.RockwellC19
use tools.Codegen.Encoding.{encode_all, encoding}
use tools.Codegen.MachineCode.{table, code, machine_code}

-- a number from its bytes, least first
abbrev pub number : List ℕ → ℕ
number [] = 0
number (b ∷ bs) = b + 256 * number bs

-- The first address that is too large for the mode: one byte for the pointers of all but jumps.
abbrev pub limit : OpCode → AddrMode → ℕ
limit _ absolute = 0x1_0000
limit _ absolute_indexed_x = 0x1_0000
limit _ absolute_indexed_y = 0x1_0000
limit jmp absolute_indirect = 0x1_0000
limit jml absolute_indirect = 0x1_0000
limit jpi absolute_indirect = 0x1_0000
limit _ absolute_indirect = 0x100
limit _ absolute_indexed_indirect = 0x1_0000
limit _ absolute_indirect_long = 0x1_0000
limit _ absolute_long = 0x100_0000
limit _ absolute_long_indexed_x = 0x100_0000
limit _ direct_page = 0x100
limit _ direct_page_indexed_x = 0x100
limit _ direct_page_indexed_y = 0x100
limit _ direct_page_indirect = 0x100
limit _ direct_page_indirect_long = 0x100
limit _ direct_page_indexed_indirect_x = 0x100
limit _ direct_page_indirect_indexed_y = 0x100
limit _ direct_page_indirect_long_indexed_y = 0x100
limit _ _ = 0

abbrev pub HasOperand : ℕ → List ℕ → Type 0
HasOperand v [] = Unit
HasOperand v (op ∷ bs) = number bs ≡ v

-- the instructions that hold a distance, and JSB, whose opcode holds the number of a vector
abbrev pub has_no_address : OpCode → Bool
has_no_address bcc = true
has_no_address bcs = true
has_no_address beq = true
has_no_address bmi = true
has_no_address bne = true
has_no_address bpl = true
has_no_address bvc = true
has_no_address bvs = true
has_no_address bra = true
has_no_address brl = true
has_no_address per = true
has_no_address jsb = true
has_no_address _ = false

module _ (value1 value2 value3 : ℕ) (g : Globals) where
  abbrev Holds : Machine → OpCode → AddrMode → Type 0
  Holds machine op mode =
      value1 < limit op mode
      → HasOperand value1 (code (table machine op mode value1 value2 value3 g) g.addr)

  holds :
      (machine : Machine) (op : OpCode) → has_no_address op ≡ false → AllModes (Holds machine op)
  unfolding table Wdc816.entry Wdc65C02.entry Mos6502.entry Rockwell65C02.entry RockwellC19.entry
      code encode_all encoding
  holds em_816 adc h = ground arith
  holds em_816 _ h = ground arith
  holds em_c02 adc h = ground arith
  holds em_c02 _ h = ground arith
  holds em_02 adc h = ground arith
  holds em_02 _ h = ground arith
  holds em_rc02 adc h = ground arith
  holds em_rc02 _ h = ground arith
  holds em_rc01 adc h = ground arith
  holds em_rc01 _ h = ground arith
  holds em_rc19 adc h = ground arith
  holds em_rc19 _ h = ground arith
  holds em_other _ h = ground arith

  pub machine_code-below_limit :
      (machine : Machine) (instr : Instr)
      → has_no_address instr.opcode ≡ false
      → value1 < limit instr.opcode (resolve instr.mode instr.modifier value1)
      → HasOperand value1 (machine_code machine instr value1 value2 value3 g)
  unfolding machine_code
  machine_code-below_limit machine instr h fits =
      mode_by_cases (Holds machine instr.opcode) (holds machine instr.opcode h)
        (resolve instr.mode instr.modifier value1) fits

-- the modes that the operands `label`, `label,X` and `label,Y` are parsed as
abbrev pub is_plain : AddrMode → Bool
is_plain absolute = true
is_plain absolute_indexed_x = true
is_plain absolute_indexed_y = true
is_plain _ = false

resolve-limit :
    (mode : AddrMode) (op : OpCode) (v : ℕ)
    → is_plain mode ≡ true
    → v < 0x1_0000
    → v < limit op (resolve mode m_none v)
unfolding resolve is_dp
resolve-limit absolute op v e h = ground arith
resolve-limit absolute_indexed_x op v e h = ground arith
resolve-limit absolute_indexed_y op v e h = ground arith
resolve-limit _ op v e h = cc

module _ (value1 value2 value3 : ℕ) (g : Globals) where
  -- With a label below 65536 as its operand, indexed or not and with no modifier, an instruction
  -- of any machine other than a branch, PER or JSB has either no machine code or an opcode byte and
  -- bytes from which, least first, the label itself reads back: codegen_gen takes the direct page to
  -- begin at 0, whatever the program assigns to dpage.
  pub machine_code-label :
      (machine : Machine) (instr : Instr)
      → has_no_address instr.opcode ≡ false
      → is_plain instr.mode ≡ true
      → instr.modifier ≡ m_none
      → value1 < 0x1_0000
      → HasOperand value1 (machine_code machine instr value1 value2 value3 g)
  machine_code-label machine instr h e n small =
      machine_code-below_limit value1 value2 value3 g machine instr h
        (rw n (resolve-limit instr.mode instr.opcode value1 e small))
