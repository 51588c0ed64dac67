-- ===== src/Codegen/MachineCode.antt =====
-- The machine code of an instruction, and codegen_gen against it.
use tools.Base.{ℕ, ◌≡◌, List, [], sym, subst, Option, none, some}
use tools.Cpu.{
  OpCode, AddrMode, Instr, Machine, em_816, em_c02, em_02, em_rc02, em_rc01, em_rc19, em_other,
}
use tools.Codegen.State.{Globals, State, globals}
use tools.Codegen.Call.{Call, finish}
use tools.Codegen.Mode.{resolve}
use tools.Codegen.Gen.{dispatch, codegen_gen}
use tools.Codegen.Wdc816
use tools.Codegen.Wdc65C02
use tools.Codegen.Mos6502
use tools.Codegen.Rockwell65C02
use tools.Codegen.RockwellC19
use tools.Codegen.Layout.{
  Emits, Emits-refl, report-Emits, IsLaidOut, Emits-IsLaidOut, Emits-globals,
}
use tools.Codegen.Encoding.{encode_all, perform_all-Emits}

-- the entry of the machine's table; a machine with none makes no call
unfoldable pub table : Machine → OpCode → AddrMode → ℕ → ℕ → ℕ → Globals → Option (List Call)
table em_816 op mode value1 value2 value3 g = Wdc816.entry op mode value1 value2 g
table em_c02 op mode value1 value2 value3 g = Wdc65C02.entry op mode value1 value2 g
table em_02 op mode value1 value2 value3 g = Mos6502.entry op mode value1 value2 g
table em_rc02 op mode value1 value2 value3 g = Rockwell65C02.entry op mode value1 value2 value3 g
table em_rc01 op mode value1 value2 value3 g = Rockwell65C02.entry op mode value1 value2 value3 g
table em_rc19 op mode value1 value2 value3 g = RockwellC19.entry op mode value1 value2 value3 g
table em_other op mode value1 value2 value3 g = some []

unfoldable pub code : Option (List Call) → ℕ → List ℕ
code none a = []
code (some cs) a = encode_all cs a

-- The bytes of an instruction depend on no more than the address and the register sizes.
unfoldable pub machine_code : Machine → Instr → ℕ → ℕ → ℕ → Globals → List ℕ
machine_code machine instr value1 value2 value3 g =
    code
      (table machine instr.opcode (resolve instr.mode instr.modifier value1) value1 value2 value3 g)
      g.addr

finish-Emits :
    (machine : Machine) (op : OpCode) (mode : AddrMode) (e : Option (List Call)) (s : State)
    → Emits s (finish machine op mode e s) (code e s.addr)
unfolding finish code
finish-Emits machine op mode none s = report-Emits _ s
finish-Emits machine op mode (some cs) s = perform_all-Emits cs s

dispatch-Emits :
    (machine : Machine) (op : OpCode) (mode : AddrMode) (value1 value2 value3 : ℕ) (s : State)
    → Emits s
        (dispatch machine op mode value1 value2 value3 s)
        (code (table machine op mode value1 value2 value3 (globals s)) s.addr)
unfolding dispatch table Wdc816.gen_816 Wdc65C02.gen_c02 Mos6502.gen_02 Rockwell65C02.gen_rc02
    RockwellC19.gen_rc19
dispatch-Emits em_816 op mode value1 value2 value3 s = finish-Emits _ _ _ _ s
dispatch-Emits em_c02 op mode value1 value2 value3 s = finish-Emits _ _ _ _ s
dispatch-Emits em_02 op mode value1 value2 value3 s = finish-Emits _ _ _ _ s
dispatch-Emits em_rc02 op mode value1 value2 value3 s = finish-Emits _ _ _ _ s
dispatch-Emits em_rc01 op mode value1 value2 value3 s = finish-Emits _ _ _ _ s
dispatch-Emits em_rc19 op mode value1 value2 value3 s = finish-Emits _ _ _ _ s
dispatch-Emits em_other op mode value1 value2 value3 s = unfold code encode_all in Emits-refl s

module _ (machine : Machine) (instr : Instr) (value1 value2 value3 : ℕ) where
  -- For every machine, instruction, operands and state, codegen_gen emits exactly the machine
  -- code that the instruction has at the current address under the current register sizes: a
  -- section that holds bytes grows by these bytes and keeps what it held, the address moves by
  -- their number in either kind of section, and register sizes, pass and start address stay.
  pub codegen_gen-Emits :
      (s : State)
      → Emits s
          (codegen_gen machine instr value1 value2 value3 s)
          (machine_code machine instr value1 value2 value3 (globals s))
  unfolding codegen_gen machine_code
  codegen_gen-Emits s = dispatch-Emits machine _ _ value1 value2 value3 s

  -- If the address is that of the next byte of the section and the section holds bytes below 256,
  -- the same is so after codegen_gen.
  pub codegen_gen-IsLaidOut :
      (s : State) → IsLaidOut s → IsLaidOut (codegen_gen machine instr value1 value2 value3 s)
  codegen_gen-IsLaidOut s = Emits-IsLaidOut _ (codegen_gen-Emits s)

  -- From states that agree on the address and the register sizes codegen_gen emits the same bytes
  -- and ends with the same address and register sizes, whatever the pass, the kind of section and
  -- its contents, the relocations and the diagnostics of either.
  pub codegen_gen_same :
      (s s' : State)
      → globals s ≡ globals s'
      → (bs : List ℕ) × Emits s (codegen_gen machine instr value1 value2 value3 s) bs
        × Emits s' (codegen_gen machine instr value1 value2 value3 s') bs
        × (globals (codegen_gen machine instr value1 value2 value3 s)
            ≡ globals (codegen_gen machine instr value1 value2 value3 s'))
  codegen_gen_same s s' e =
      let h = codegen_gen-Emits s in
      let k =
        subst
          (λ g.
            Emits s' (codegen_gen machine instr value1 value2 value3 s')
              (machine_code machine instr value1 value2 value3 g))
          (sym e) (codegen_gen-Emits s') in
      (machine_code machine instr value1 value2 value3 (globals s), h, k, Emits-globals _ h k e)
