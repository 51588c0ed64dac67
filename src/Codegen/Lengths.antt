-- ===== src/Codegen/Lengths.antt =====
-- The lengths of the processors' instructions, by opcode, and those of the code generator's.
use tools.Base.{
  ℕ, ◌/◌, ◌%◌, ◌≡◌, Bool, true, false, ◌||◌, List, [], ◌∷◌, ◌==◌, if◌then◌else◌, length, arith,
}
use tools.Cpu.{
  OpCode, adc, AddrMode, Instr, Machine, em_816, em_c02, em_02, stx, stz, brk,
  direct_page_indexed_x, direct_page_indexed_y, implied,
}
use tools.Cpu.Modes.{AllModes, mode_by_cases}
use tools.Codegen.State.{Globals}
use tools.Codegen.Mode.{resolve}
use tools.Codegen.Mos6502
use tools.Codegen.Wdc65C02
use tools.Codegen.Wdc816
use tools.Codegen.Encoding.{encode_all, encoding}
use tools.Codegen.MachineCode.{table, code, machine_code}

-- one byte more for a register of 16 bits
abbrev pub immediate_length : Bool → ℕ
immediate_length long = if long then 3 else 2

-- by the column of the opcode, that is its low half; `a` and `i` are the sizes of the registers
abbrev pub column_0 : Bool → ℕ → ℕ
column_0 i op =
    if op == 0x20
    then 3
    else if op == 0x40 || op == 0x60
    then 1
    else if op == 0xa0 || (op == 0xc0 || op == 0xe0)
    then immediate_length i
    else 2

abbrev pub column_2 : Bool → ℕ → ℕ
column_2 i op =
    if op == 0x22
    then 4
    else if op == 0x62 || op == 0x82
    then 3
    else if op == 0xa2
    then immediate_length i
    else 2

abbrev pub column_4 : ℕ → ℕ
column_4 op = if op == 0x44 || (op == 0x54 || op == 0xf4) then 3 else 2

abbrev pub column_9 : Bool → ℕ → ℕ
column_9 a op = if op / 16 % 2 == 0 then immediate_length a else 3

abbrev pub instruction_length : Bool → Bool → ℕ → ℕ
instruction_length a i op =
    let column = op % 16 in
    if column == 0
    then column_0 i op
    else if column == 2
    then column_2 i op
    else if column == 4
    then column_4 op
    else if column == 9
    then column_9 a op
    else if column == 8 || (column == 10 || column == 11)
    then 1
    else if column == 12
    then (if op == 0x5c then 4 else 3)
    else if column == 13 || column == 14
    then 3
    else if column == 15
    then 4
    else 2

-- the code is none or one whole instruction
abbrev pub IsWhole : Bool → Bool → List ℕ → Type 0
IsWhole a i [] = Unit
IsWhole a i (op ∷ bs) = length (op ∷ bs) ≡ instruction_length a i op

-- BRK without its second byte, and two stores that are emitted with one byte too many
abbrev pub is_exception : OpCode → AddrMode → Bool
is_exception brk implied = true
is_exception stx direct_page_indexed_y = true
is_exception stz direct_page_indexed_x = true
is_exception _ _ = false

-- the machines whose opcodes have these lengths; only the 65C816 has 16-bit registers
abbrev pub is_measured : Machine → Bool
is_measured em_816 = true
is_measured em_c02 = true
is_measured em_02 = true
is_measured _ = false

abbrev pub wide : Machine → Bool → Bool
wide em_816 long = long
wide _ long = false

module _ (value1 value2 value3 : ℕ) (g : Globals) where
  abbrev Whole : Machine → OpCode → AddrMode → Type 0
  Whole machine op mode =
      is_exception op mode ≡ false
      → IsWhole (wide machine g.longa) (wide machine g.longi)
          (code (table machine op mode value1 value2 value3 g) g.addr)

  whole :
      (machine : Machine) (op : OpCode) → is_measured machine ≡ true → AllModes (Whole machine op)
  unfolding table Wdc816.entry Wdc65C02.entry Mos6502.entry code encode_all encoding
  whole em_816 adc h = ground arith
  whole em_816 _ h = ground arith
  whole em_c02 adc h = ground arith
  whole em_c02 _ h = ground arith
  whole em_02 adc h = ground arith
  whole em_02 _ h = ground arith
  whole _ op h = cc

  -- On the 65C816, the WDC 65C02 and the 6502, unless it is BRK without operand, STX dp,Y or
  -- STZ dp,X, an instruction has no machine code or as many bytes as the processor reads for its
  -- opcode, on the 65C816 under the register sizes that the code generator was told.
  pub machine_code-IsWhole :
      (machine : Machine) (instr : Instr)
      → is_measured machine ≡ true
      → is_exception instr.opcode (resolve instr.mode instr.modifier value1) ≡ false
      → IsWhole
          (wide machine g.longa)
          (wide machine g.longi)
          (machine_code machine instr value1 value2 value3 g)
  unfolding machine_code
  machine_code-IsWhole machine instr m h =
      mode_by_cases (Whole machine instr.opcode) (whole machine instr.opcode m)
        (resolve instr.mode instr.modifier value1) h
