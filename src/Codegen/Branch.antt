-- ===== src/Codegen/Branch.antt =====
-- Where the processor goes after a relative branch, and the calls that the tables make for one.
pub mod Reach
pub mod Promotion
pub mod Bits
use tools.Base.{
  ℕ, ◌+◌, ◌*◌, ◌-◌, ◌%◌, ◌<◌, ◌≤◌, ◌≡◌, ◌≢◌, refl, ap, ◌∙◌, Bool, true, false, List, [], ◌∷◌,
  Option, none, some, arith, ltb, if◌then◌else◌, int_mod,
}
use tools.Cpu.{
  OpCode, adc, bcc, bcs, beq, bmi, bne, bpl, bvc, bvs, AddrMode, absolute, direct_page,
  program_counter_relative, Modifier, Instr, Machine, em_816, em_c02, em_02, em_rc02, em_rc01,
  em_rc19, em_other,
}
use tools.Cpu.Modes.{AllModes, mode_by_cases}
use tools.Codegen.State.{Globals, State, globals}
use tools.Codegen.Call.{Call, branch, finish, perform_all, perform}
use tools.Codegen.Emit
use tools.Codegen.Mode.{resolve}
use tools.Codegen.Gen.{dispatch, codegen_gen}
use tools.Codegen.Wdc816
use tools.Codegen.Wdc65C02
use tools.Codegen.Mos6502
use tools.Codegen.Rockwell65C02
use tools.Codegen.RockwellC19
use tools.Codegen.MachineCode.{table}

-- The address behind a branch at `a` plus its signed offset, of one byte or of two.
abbrev pub sign_extend : ℕ → ℕ
sign_extend b = if ltb b 0x80 then b else b + (int_mod - 0x100)

abbrev pub sign_extend_word : ℕ → ℕ
sign_extend_word w = if ltb w 0x8000 then w else w + (int_mod - 0x1_0000)

abbrev pub lands : ℕ → List ℕ → ℕ
lands a (op ∷ r ∷ []) = (a + 2 + sign_extend r) % int_mod
lands a (op ∷ l ∷ h ∷ []) = (a + 3 + sign_extend_word (l + 256 * h)) % int_mod
lands a _ = a

-- An offset of one byte takes a branch at `a` to `v`.
abbrev pub InReach : ℕ → ℕ → Type 0
InReach a v = (a + 2 ≤ v + 128) × (v ≤ a + 2 + 127)

-- the opcode bytes of the conditional branches of the 6502
abbrev pub branch_opcode : OpCode → Option ℕ
branch_opcode bcc = some 0x90
branch_opcode bcs = some 0xb0
branch_opcode beq = some 0xf0
branch_opcode bmi = some 0x30
branch_opcode bne = some 0xd0
branch_opcode bpl = some 0x10
branch_opcode bvc = some 0x50
branch_opcode bvs = some 0x70
branch_opcode _ = none

-- the modes that the operand of a branch is parsed as
abbrev pub is_label : AddrMode → Bool
is_label absolute = true
is_label direct_page = true
is_label program_counter_relative = true
is_label _ = false

pub is_label-resolve :
    (mode : AddrMode) (m : Modifier) (v : ℕ)
    → is_label mode ≡ true
    → is_label (resolve mode m v) ≡ true
unfolding resolve
is_label-resolve absolute m v e = ground arith
is_label-resolve direct_page m v e = refl
is_label-resolve program_counter_relative m v e = refl
is_label-resolve _ m v e = cc

-- codegen_gen through the entry of the machine's table
abbrev pub message_machine : Machine → Machine
message_machine em_rc01 = em_rc02
message_machine machine = machine

pub codegen_gen-finish :
    (machine : Machine) (instr : Instr) (value1 value2 value3 : ℕ) (s : State)
    → codegen_gen machine instr value1 value2 value3 s
      ≡ finish
          (message_machine machine)
          instr.opcode
          (resolve instr.mode instr.modifier value1)
          (table machine instr.opcode
            (resolve instr.mode instr.modifier value1)
            value1
            value2
            value3
            (globals s))
          s
unfolding codegen_gen dispatch table finish perform_all Wdc816.gen_816 Wdc65C02.gen_c02
    Mos6502.gen_02 Rockwell65C02.gen_rc02 RockwellC19.gen_rc19
codegen_gen-finish em_816 instr value1 value2 value3 s = refl
codegen_gen-finish _ instr value1 value2 value3 s = refl

module _ (v value2 value3 : ℕ) (g : Globals) (op : OpCode) (b : ℕ) where
  abbrev Branches : Machine → AddrMode → Type 0
  Branches machine mode =
      is_label mode ≡ true → table machine op mode v value2 value3 g ≡ some (branch b v ∷ [])

table-Branches :
    (v value2 value3 : ℕ) (g : Globals) (machine : Machine) (op : OpCode) (b : ℕ)
    → machine ≢ em_other
    → branch_opcode op ≡ some b
    → v ≢ 0
    → AllModes (Branches v value2 value3 g op b machine)
unfolding table Wdc816.entry Wdc65C02.entry Mos6502.entry Rockwell65C02.entry RockwellC19.entry
table-Branches v value2 value3 g em_816 adc b k h z = ground arith
table-Branches v value2 value3 g _ _ b k h z = ground arith

-- On every machine a conditional branch to a label other than 0 is one call of `or`.
pub codegen_gen-branch :
    (machine : Machine) (instr : Instr) (b v value2 value3 : ℕ) (s : State)
    → machine ≢ em_other
    → branch_opcode instr.opcode ≡ some b
    → is_label instr.mode ≡ true
    → v ≢ 0
    → codegen_gen machine instr v value2 value3 s ≡ Emit.branch b v s
unfolding finish perform_all perform
codegen_gen-branch machine instr b v value2 value3 s k h e z =
    let mode = resolve instr.mode instr.modifier v in
    let found : table machine instr.opcode mode v value2 value3 (globals s)
        ≡ some (branch b v ∷ []) =
      mode_by_cases (Branches v value2 value3 (globals s) instr.opcode b machine)
        (table-Branches v value2 value3 (globals s) machine instr.opcode b k h z) mode
        (is_label-resolve instr.mode instr.modifier v e) in
    codegen_gen-finish machine instr v value2 value3 s
    ∙ ap (λ x. finish (message_machine machine) instr.opcode mode x s) found
