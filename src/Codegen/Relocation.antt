-- ===== src/Codegen/Relocation.antt =====
-- The table of relocations: the addresses of the calls that were assembled.
use tools.Base.{
  ℕ, ◌≡◌, ◌∙◌, ap, refl, Bool, true, false, ◌&&◌, List, [], ◌∷◌, ◌++◌, Option, none, some, arith,
  ltb, length, ◌%◌, if◌then◌else◌,
}
use tools.Cpu.{
  OpCode, adc, jsl, jsr, AddrMode, absolute, absolute_long, direct_page, Instr, Machine, em_816,
  em_c02, em_02, em_rc02, em_rc01, em_rc19, em_other,
}
use tools.Cpu.Modes.{AllModes, mode_by_cases}
use tools.Codegen.State.{Globals, State, globals, max_reloc}
use tools.Codegen.Emit
use tools.Codegen.Call.{Call, mark_reloc, o, finish, perform, perform_all, add_reloc}
use tools.Codegen.Mode.{resolve}
use tools.Codegen.Gen.{codegen_gen}
use tools.Codegen.Wdc816
use tools.Codegen.Wdc65C02
use tools.Codegen.Mos6502
use tools.Codegen.Rockwell65C02
use tools.Codegen.RockwellC19
use tools.Codegen.MachineCode.{table}
use tools.Codegen.Branch.{message_machine, codegen_gen-finish}

-- the calls of a subroutine whose address the loader has to move
abbrev pub is_call : Machine → OpCode → AddrMode → Bool
is_call em_816 jsl absolute = true
is_call em_816 jsl direct_page = true
is_call em_816 jsl absolute_long = true
is_call em_816 jsr absolute = true
is_call em_816 jsr direct_page = true
is_call em_816 jsr absolute_long = true
is_call _ _ _ = false

is_mark : Call → Bool
is_mark mark_reloc = true
is_mark _ = false

abbrev HasNoMark : List Call → Type 0
HasNoMark [] = Unit
HasNoMark (c ∷ cs) = (is_mark c ≡ false) × HasNoMark cs

perform-reloc : (c : Call) (s : State) → is_mark c ≡ false → (perform c s).reloc ≡ s.reloc
unfolding is_mark perform Emit.o Emit.ob Emit.odp Emit.ow Emit.oabs Emit.ol Emit.olong Emit.om
    Emit.branch Emit.orl Emit.relative Emit.omove Emit.obita Emit.obitar Emit.oiz Emit.obitzr
perform-reloc (o op) s h = refl
perform-reloc _ s h = ground arith

perform_all-reloc : (cs : List Call) (s : State) → HasNoMark cs → (perform_all cs s).reloc ≡ s.reloc
unfolding perform_all
perform_all-reloc [] s h = refl
perform_all-reloc (c ∷ cs) s h = perform_all-reloc cs (perform c s) h.1 ∙ perform-reloc c s h.0

-- An entry marks the address first or not at all.
abbrev Marks : Option (List Call) → Bool → Type 0
Marks none b = b ≡ false
Marks (some []) b = b ≡ false
Marks (some (mark_reloc ∷ cs)) b = (b ≡ true) × HasNoMark cs
Marks (some (c ∷ cs)) b = (b ≡ false) × (is_mark c ≡ false) × HasNoMark cs

table-Marks :
    (value1 value2 value3 : ℕ) (g : Globals) (machine : Machine) (op : OpCode)
    → AllModes
        λ mode. Marks (table machine op mode value1 value2 value3 g) (is_call machine op mode)
unfolding table Wdc816.entry Wdc65C02.entry Mos6502.entry Rockwell65C02.entry RockwellC19.entry
    is_mark
table-Marks value1 value2 value3 g em_816 adc = ground arith
table-Marks value1 value2 value3 g em_816 _ = ground arith
table-Marks value1 value2 value3 g em_c02 adc = ground arith
table-Marks value1 value2 value3 g em_c02 _ = ground arith
table-Marks value1 value2 value3 g em_02 adc = ground arith
table-Marks value1 value2 value3 g em_02 _ = ground arith
table-Marks value1 value2 value3 g em_rc02 adc = ground arith
table-Marks value1 value2 value3 g em_rc02 _ = ground arith
table-Marks value1 value2 value3 g em_rc01 adc = ground arith
table-Marks value1 value2 value3 g em_rc01 _ = ground arith
table-Marks value1 value2 value3 g em_rc19 adc = ground arith
table-Marks value1 value2 value3 g em_rc19 _ = ground arith
table-Marks value1 value2 value3 g em_other op = ground arith

-- the table with the address `a` in it, if `b` and there is room
abbrev pub relocated : Bool → ℕ → List ℕ → List ℕ
relocated b a table =
    if b && ltb (length table) max_reloc then table ++ a % 0x1_0000 ∷ [] else table

add_reloc-relocated : (s : State) → (add_reloc s).reloc ≡ relocated true s.addr s.reloc
unfolding add_reloc
add_reloc-relocated s = ground arith

finish-relocated :
    (machine : Machine) (op : OpCode) (mode : AddrMode) (e : Option (List Call)) (b : Bool)
    (s : State)
    → Marks e b
    → (finish machine op mode e s).reloc ≡ relocated b s.addr s.reloc
unfolding finish perform_all perform add_reloc is_mark
finish-relocated machine op mode none b s h = ground arith
finish-relocated machine op mode (some []) b s h = ground arith
finish-relocated machine op mode (some (mark_reloc ∷ cs)) b s h =
    rw h.0 (perform_all-reloc cs (add_reloc s) h.1 ∙ add_reloc-relocated s)
finish-relocated machine op mode (some (c ∷ cs)) b s h =
    rw h.0 (perform_all-reloc (c ∷ cs) s (h.1, h.2))

-- codegen_gen enters the address of a call (JSL, or JSR to a label, for the 65C816) into the
-- table, as a short int, while it has fewer than 1024 entries, and leaves it alone for every
-- other instruction.
pub codegen_gen-reloc :
    (machine : Machine) (instr : Instr) (value1 value2 value3 : ℕ) (s : State)
    → (codegen_gen machine instr value1 value2 value3 s).reloc
      ≡ relocated
          (is_call machine instr.opcode (resolve instr.mode instr.modifier value1))
          s.addr
          s.reloc
codegen_gen-reloc machine instr value1 value2 value3 s =
    let mode = resolve instr.mode instr.modifier value1 in
    ap (λ t. t.reloc) (codegen_gen-finish machine instr value1 value2 value3 s)
    ∙ finish-relocated (message_machine machine) instr.opcode mode _ _ s (
        mode_by_cases
          (λ m.
            Marks (table machine instr.opcode m value1 value2 value3 (globals s))
              (is_call machine instr.opcode m))
          (table-Marks value1 value2 value3 (globals s) machine instr.opcode) mode)
