-- ===== src/Codegen/Shape.antt =====
-- How long an instruction is.
use tools.Base.{ℕ, ◌+◌, ◌≤◌, List, Option, arith, length}
use tools.Cpu.{
  OpCode, adc, Instr, Machine, em_816, em_c02, em_02, em_rc02, em_rc01, em_rc19, em_other,
}
use tools.Cpu.Modes.{AllModes, mode_by_cases}
use tools.Codegen.State.{Globals, State, globals}
use tools.Codegen.Call.{Call}
use tools.Codegen.Mode.{resolve}
use tools.Codegen.Gen.{codegen_gen}
use tools.Codegen.Wdc816
use tools.Codegen.Wdc65C02
use tools.Codegen.Mos6502
use tools.Codegen.Rockwell65C02
use tools.Codegen.RockwellC19
use tools.Codegen.MachineCode.{code, table, machine_code, codegen_gen-Emits}
use tools.Codegen.Encoding.{encode_all, encoding}

-- the bytes of the longest instruction
abbrev pub longest : Machine → ℕ
longest em_816 = 4
longest em_c02 = 3
longest em_02 = 3
longest em_rc02 = 3
longest em_rc01 = 3
longest em_rc19 = 5
longest em_other = 0

abbrev IsAtMost : ℕ → Option (List Call) → Globals → Type 0
IsAtMost n e g = length (code e g.addr) ≤ n

wdc816 :
    (op : OpCode) (value1 value2 : ℕ) (g : Globals)
    → AllModes λ mode. IsAtMost 4 (Wdc816.entry op mode value1 value2 g) g
unfolding Wdc816.entry code encode_all encoding
wdc816 adc value1 value2 g = ground arith
wdc816 _ value1 value2 g = ground arith

wdc65c02 :
    (op : OpCode) (value1 value2 : ℕ) (g : Globals)
    → AllModes λ mode. IsAtMost 3 (Wdc65C02.entry op mode value1 value2 g) g
unfolding Wdc65C02.entry code encode_all encoding
wdc65c02 adc value1 value2 g = omega arith
wdc65c02 _ value1 value2 g = omega arith

mos6502 :
    (op : OpCode) (value1 value2 : ℕ) (g : Globals)
    → AllModes λ mode. IsAtMost 3 (Mos6502.entry op mode value1 value2 g) g
unfolding Mos6502.entry code encode_all encoding
mos6502 adc value1 value2 g = omega arith
mos6502 _ value1 value2 g = omega arith

rockwell65c02 :
    (op : OpCode) (value1 value2 value3 : ℕ) (g : Globals)
    → AllModes λ mode. IsAtMost 3 (Rockwell65C02.entry op mode value1 value2 value3 g) g
unfolding Rockwell65C02.entry code encode_all encoding
rockwell65c02 adc value1 value2 value3 g = omega arith
rockwell65c02 _ value1 value2 value3 g = omega arith

rockwell_c19 :
    (op : OpCode) (value1 value2 value3 : ℕ) (g : Globals)
    → AllModes λ mode. IsAtMost 5 (RockwellC19.entry op mode value1 value2 value3 g) g
unfolding RockwellC19.entry code encode_all encoding
rockwell_c19 adc value1 value2 value3 g = omega arith
rockwell_c19 _ value1 value2 value3 g = omega arith

table-IsAtMost :
    (machine : Machine) (op : OpCode) (value1 value2 value3 : ℕ) (g : Globals)
    → AllModes λ mode. IsAtMost (longest machine) (table machine op mode value1 value2 value3 g) g
unfolding table
table-IsAtMost em_816 op value1 value2 value3 g = wdc816 op value1 value2 g
table-IsAtMost em_c02 op value1 value2 value3 g = wdc65c02 op value1 value2 g
table-IsAtMost em_02 op value1 value2 value3 g = mos6502 op value1 value2 g
table-IsAtMost em_rc02 op value1 value2 value3 g = rockwell65c02 op value1 value2 value3 g
table-IsAtMost em_rc01 op value1 value2 value3 g = rockwell65c02 op value1 value2 value3 g
table-IsAtMost em_rc19 op value1 value2 value3 g = rockwell_c19 op value1 value2 value3 g
table-IsAtMost em_other op value1 value2 value3 g = unfold code encode_all in omega arith

pub length-machine_code :
    (machine : Machine) (instr : Instr) (value1 value2 value3 : ℕ) (g : Globals)
    → length (machine_code machine instr value1 value2 value3 g) ≤ longest machine
unfolding machine_code
length-machine_code machine instr value1 value2 value3 g =
    mode_by_cases
      (λ mode.
        IsAtMost (longest machine) (table machine instr.opcode mode value1 value2 value3 g) g)
      (table-IsAtMost machine instr.opcode value1 value2 value3 g)
      (resolve instr.mode instr.modifier value1)

-- One codegen_gen moves the address by at most the longest instruction of the machine: 4 bytes on
-- the 65C816, 3 on the 6502 and the 65C02s, 5 on the R65C19, none on a machine with no table.
pub codegen_gen_advance :
    (machine : Machine) (instr : Instr) (value1 value2 value3 : ℕ) (s : State)
    → (s.addr ≤ (codegen_gen machine instr value1 value2 value3 s).addr)
      × ((codegen_gen machine instr value1 value2 value3 s).addr ≤ s.addr + longest machine)
codegen_gen_advance machine instr value1 value2 value3 s =
    let moved = (codegen_gen-Emits machine instr value1 value2 value3 s).addr in
    let short = length-machine_code machine instr value1 value2 value3 (globals s) in
    (omega (arith, moved), omega (arith, moved, short))
