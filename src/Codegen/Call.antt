-- ===== src/Codegen/Call.antt =====
-- What an entry of an instruction table does: the emitters that it calls, in order.
use tools.Base.{
  ℕ, ◌%◌, Bool, List, [], ◌∷◌, ◌++◌, Option, none, some, ltb, ◌==◌, if◌then◌else◌, length,
}
use tools.Cpu.{OpCode, AddrMode, Machine}
use tools.Codegen.State.{State, Diagnostic, not_supported, max_reloc}
use tools.Codegen.Emit
use tools.Codegen.Emit.{report}

pub data Call : Type 0 where
  o : ℕ → Call
  ob odp ow oabs ol olong branch orl : ℕ → ℕ → Call
  om : ℕ → ℕ → Bool → Call
  omove obita oiz : ℕ → ℕ → ℕ → Call
  obitar obitzr : ℕ → ℕ → ℕ → ℕ → Call
  -- as_gen_warn
  warn : Diagnostic → Call
  -- `if (relocC < maxReloc) reloc[relocC++] = addr`
  mark_reloc : Call

-- An entry of the relocation table is a short int.
unfoldable pub add_reloc : State → State
add_reloc s =
    if ltb (length s.reloc) max_reloc
    then record s { reloc = s.reloc ++ s.addr % 0x1_0000 ∷ [] }
    else s

unfoldable pub perform : Call → State → State
perform (o op) = Emit.o op
perform (ob op v) = Emit.ob op v
perform (odp op v) = Emit.odp op v
perform (ow op v) = Emit.ow op v
perform (oabs op v) = Emit.oabs op v
perform (ol op v) = Emit.ol op v
perform (olong op v) = Emit.olong op v
perform (branch op v) = Emit.branch op v
perform (orl op v) = Emit.orl op v
perform (om op v b) = Emit.om op v b
perform (omove op src dst) = Emit.omove op src dst
perform (obita op mask a) = Emit.obita op mask a
perform (oiz op imm mem) = Emit.oiz op imm mem
perform (obitar op mem mask v) = Emit.obitar op mem mask v
perform (obitzr op bit mem v) = Emit.obitzr op bit mem v
perform (warn d) = report d
perform mark_reloc = add_reloc

unfoldable pub perform_all : List Call → State → State
perform_all [] s = s
perform_all (c ∷ cs) s = perform_all cs (perform c s)

-- `if (value1 == 0) return; /* Optimisation */` in front of an entry
abbrev pub unless_zero : ℕ → Option (List Call) → Option (List Call)
unless_zero value1 entry = if value1 == 0 then some [] else entry

-- An entry that returns has made its calls; `none` falls out of the switch to the error.
unfoldable pub finish : Machine → OpCode → AddrMode → Option (List Call) → State → State
finish machine opcode mode none s = report (not_supported machine opcode mode) s
finish machine opcode mode (some cs) s = perform_all cs s
