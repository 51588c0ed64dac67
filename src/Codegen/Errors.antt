-- ===== src/Codegen/Errors.antt =====
-- Instructions that a processor lacks.
use tools.Base.{
  ℕ, ◌<◌, ◌≡◌, ◌≢◌, ◌⊎◌, inl, inr, ◌∙◌, refl, ap, List, [], ◌∷◌, ◌++◌, Option, none, some, arith,
  length,
}
use tools.Cpu.{
  OpCode, adc, lda, Instr, Machine, em_816, em_c02, em_02, em_rc02, em_rc01, em_rc19, em_other,
}
use tools.Cpu.Modes.{AllModes, mode_by_cases}
use tools.Codegen.State.{Globals, State, globals, not_supported}
use tools.Codegen.Call.{Call, finish}
use tools.Codegen.Mode.{resolve}
use tools.Codegen.Gen.{codegen_gen}
use tools.Codegen.Wdc816
use tools.Codegen.Wdc65C02
use tools.Codegen.Mos6502
use tools.Codegen.Rockwell65C02
use tools.Codegen.RockwellC19
use tools.Codegen.Encoding.{encode_all, encoding}
use tools.Codegen.MachineCode.{table, code, machine_code}
use tools.Codegen.Branch.{message_machine, codegen_gen-finish}

-- An entry that returns has emitted something.
abbrev IsHeard : Option (List Call) → ℕ → Type 0
IsHeard none a = Unit
IsHeard (some cs) a = 0 < length (encode_all cs a)

table-IsHeard :
    (value1 value2 value3 : ℕ) (g : Globals) (machine : Machine) (op : OpCode)
    → machine ≢ em_other
    → op ≢ lda
    → value1 ≢ 0
    → AllModes λ mode. IsHeard (table machine op mode value1 value2 value3 g) g.addr
unfolding table Wdc816.entry Wdc65C02.entry Mos6502.entry Rockwell65C02.entry RockwellC19.entry
    encode_all encoding
table-IsHeard value1 value2 value3 g em_816 adc k l z = ground arith
table-IsHeard value1 value2 value3 g em_816 _ k l z = ground arith
table-IsHeard value1 value2 value3 g em_c02 adc k l z = ground arith
table-IsHeard value1 value2 value3 g em_c02 _ k l z = ground arith
table-IsHeard value1 value2 value3 g em_02 adc k l z = ground arith
table-IsHeard value1 value2 value3 g em_02 _ k l z = ground arith
table-IsHeard value1 value2 value3 g em_rc02 adc k l z = ground arith
table-IsHeard value1 value2 value3 g em_rc02 _ k l z = ground arith
table-IsHeard value1 value2 value3 g em_rc01 adc k l z = ground arith
table-IsHeard value1 value2 value3 g em_rc01 _ k l z = ground arith
table-IsHeard value1 value2 value3 g em_rc19 adc k l z = ground arith
table-IsHeard value1 value2 value3 g em_rc19 _ k l z = ground arith
table-IsHeard value1 value2 value3 g em_other op k l z = absurd (k refl)

emits_or_falls :
    (e : Option (List Call)) (a : ℕ) → IsHeard e a → (0 < length (code e a)) ⊎ (e ≡ none)
unfolding code
emits_or_falls none a h = inr refl
emits_or_falls (some cs) a h = inl h

module _ (machine : Machine) (instr : Instr) (value1 value2 value3 : ℕ) (s : State) where
  -- On a machine with a table, an instruction other than LDA whose first operand is not 0 either
  -- has at least one byte of machine code, or codegen_gen reports that the instruction is not
  -- supported in the mode chosen, and changes nothing else.
  pub emits_or_reports :
      machine ≢ em_other
      → instr.opcode ≢ lda
      → value1 ≢ 0
      → (0 < length (machine_code machine instr value1 value2 value3 (globals s)))
        ⊎ (codegen_gen machine instr value1 value2 value3 s ≡ record s {
          diagnostics =
              s.diagnostics
              ++ not_supported
                  (message_machine machine)
                  instr.opcode
                  (resolve instr.mode instr.modifier value1)
                ∷ [];
        })
  unfolding machine_code finish
  emits_or_reports k l z =
      let mode = resolve instr.mode instr.modifier value1 in
      let entry = table machine instr.opcode mode value1 value2 value3 (globals s) in
      elim (emits_or_falls entry s.addr (
        mode_by_cases
          (λ m. IsHeard (table machine instr.opcode m value1 value2 value3 (globals s)) s.addr)
          (table-IsHeard value1 value2 value3 (globals s) machine instr.opcode k l z) mode)) [
            | inl some_bytes ↦ inl some_bytes
            | inr nothing ↦ inr (
                codegen_gen-finish machine instr value1 value2 value3 s
                ∙ ap (λ e. finish (message_machine machine) instr.opcode mode e s) nothing)
          ]
