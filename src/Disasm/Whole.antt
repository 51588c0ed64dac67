-- ===== src/Disasm/Whole.antt =====
-- The disassembler against the lengths of the 65C816's instructions and against the assembler.
use tools.Base.{
  ℕ, zero, suc, ◌+◌, ◌*◌, ◌<◌, ◌≡◌, refl, sym, ap, subst, ◌∙◌, inl, inr, Bool, true, false, not,
  ◌&&◌, List, [], ◌∷◌, ◌++◌, Option, none, some, ◌==◌, length, All, Bool-cases, arith, get_elem?,
  get_elem?-append, ◌>>=◌,
}
use tools.Cpu.{AddrMode, Instr, em_816}
use tools.Codegen.State.{State, globals}
use tools.Codegen.Mode.{resolve}
use tools.Codegen.Layout.{IsByte}
use tools.Codegen.MachineCode.{machine_code, codegen_gen-Emits}
use tools.Codegen.Operand.{number}
use tools.Codegen.Lengths.{instruction_length, IsWhole, is_exception, machine_code-IsWhole}
use tools.Disasm.Decode.{
  ProcessorStatus, cases, find_case, labelled, decode_instruction, DisasmInstr, code_org, updated,
  disassemble_instruction, or_default, instruction_at,
}

-- the test that a case of the switch sets the length of the 65C816
abbrev agrees : Bool → Bool → ℕ → Option (AddrMode × ℕ) → Bool
agrees m x op none = true
agrees m x op (some (mode, l)) = l == instruction_length (not m) (not x) op

abbrev check : Bool → Bool → ℕ → Bool
check m x op = agrees m x op (find_case op (cases m x))

abbrev all_below : ℕ → (ℕ → Bool) → Bool
all_below zero p = true
all_below (suc n) p = p n && all_below n p

==-≡ : (a b : ℕ) → a == b ≡ true → a ≡ b
==-≡ a b e = ground (arith, e)

and-true : (a b : Bool) → a && b ≡ true → (a ≡ true) × (b ≡ true)
and-true true b h = (refl, h)
and-true false b h = cc

all_below_lem : (n : ℕ) (p : ℕ → Bool) (k : ℕ) → all_below n p ≡ true → k < n → p k ≡ true
all_below_lem zero p k h l = absurd (omega (arith, l))
all_below_lem (suc n) p k h l =
    let (now, later) = and-true (p n) (all_below n p) h in
    elim (Bool-cases (k == n)) [
      | inl e ↦ subst (λ i. p i ≡ true) (sym (==-≡ k n e)) now
      | inr e ↦ all_below_lem n p k later (ground (arith, e, l))
    ]

all_agree : (m x : Bool) → all_below 256 (check m x) ≡ true
all_agree true true = refl
all_agree true false = refl
all_agree false true = refl
all_agree false false = refl

-- Each opcode that the switch of decode_instruction names gets the length that the 65C816 reads,
-- under the sizes of the registers that the status tells.
pub decode_instruction-length :
    (s : ProcessorStatus) (op : ℕ) (mode : AddrMode) (l : ℕ)
    → op < 256
    → labelled s op ≡ some (mode, l)
    → l ≡ instruction_length (not s.m_flag) (not s.x_flag) op
unfolding labelled
decode_instruction-length s op mode l small h =
    let e : agrees s.m_flag s.x_flag op (some (mode, l)) ≡ true =
      ap (agrees s.m_flag s.x_flag op) (sym h)
      ∙ all_below_lem 256 (check s.m_flag s.x_flag) op (all_agree s.m_flag s.x_flag) small in
    ==-≡ l (instruction_length (not s.m_flag) (not s.x_flag) op) e

-- the record for an instruction
abbrev pub decoded : ℕ → ℕ → AddrMode → List ℕ → DisasmInstr
decoded pc op mode bs = record {
  address = code_org + pc;
  opcode = op;
  mode = mode;
  length = suc (length bs);
  value = number bs;
}

module _ (s : ProcessorStatus) (op : ℕ) (mode : AddrMode) (pre : List ℕ) where
  operands_at :
      (bs post : List ℕ)
      → length bs < 4
      → instruction_at s (pre ++ (op ∷ (bs ++ post))) (length pre) op (mode, suc (length bs))
        ≡ some (decoded (length pre) op mode bs, updated op (number bs) s)
  operands_at [] post h = refl
  operands_at (a ∷ []) post h =
      let value : a ≡ number (a ∷ []) = omega arith in
      rw (get_elem?-append pre (op ∷ a ∷ post) 1 (length pre + 1) refl) (
        ap
          (λ v. some (record (decoded (length pre) op mode (a ∷ [])) { value = v }, updated op v s))
          value)
  operands_at (a ∷ b ∷ []) post h =
      let value : a + b * 256 ≡ number (a ∷ b ∷ []) = omega arith in
      rw (get_elem?-append pre (op ∷ a ∷ b ∷ post) 1 (length pre + 1) refl) (
        rw (get_elem?-append pre (op ∷ a ∷ b ∷ post) 2 (length pre + 2) refl) (
          ap
            (λ v.
              some
                (record (decoded (length pre) op mode (a ∷ b ∷ [])) { value = v }, updated op v s))
            value))
  operands_at (a ∷ b ∷ c ∷ []) post h =
      let value : a + b * 256 + c * 0x1_0000 ≡ number (a ∷ b ∷ c ∷ []) = omega arith in
      rw (get_elem?-append pre (op ∷ a ∷ b ∷ c ∷ post) 1 (length pre + 1) refl) (
        rw (get_elem?-append pre (op ∷ a ∷ b ∷ c ∷ post) 2 (length pre + 2) refl) (
          rw (get_elem?-append pre (op ∷ a ∷ b ∷ c ∷ post) 3 (length pre + 3) refl) (
            ap
              (λ v. some (
                record (decoded (length pre) op mode (a ∷ b ∷ c ∷ [])) { value = v },
                updated op v s,
              ))
              value)))
  operands_at (a ∷ b ∷ c ∷ d ∷ bs) post h = absurd (omega (arith, h))

  reads_whole :
      (bs post : List ℕ)
      → labelled s op ≡ some (mode, length (op ∷ bs))
      → length bs < 4
      → disassemble_instruction s (pre ++ (op ∷ (bs ++ post))) (length pre)
        ≡ some (decoded (length pre) op mode bs, updated op (number bs) s)
  unfolding disassemble_instruction decode_instruction
  reads_whole bs post e h =
      let code = pre ++ (op ∷ (bs ++ post)) in
      let top : get_elem? code (length pre) ≡ some op =
        get_elem?-append pre (op ∷ (bs ++ post)) 0 (length pre) (omega arith) in
      ap (λ o. o >>= λ x. instruction_at s code (length pre) x (decode_instruction s x)) top
      ∙ ap (λ r. instruction_at s code (length pre) op (or_default r)) e
      ∙ operands_at bs post h

length-bound : (a i : Bool) (op : ℕ) → instruction_length a i op < 5
length-bound a i op = ground arith

-- For an instruction of the 65C816 other than BRK without operand, STX dp,Y and STZ dp,X, if the
-- switch of decode_instruction names the opcode of its machine code, and the register sizes that
-- the status tells are the ones that the code generator was told, disassemble_instruction at the
-- place of the machine code, in any code, reads the whole instruction with its operand.
pub disassemble-machine_code :
    (instr : Instr) (value1 value2 value3 : ℕ) (st : State) (s : ProcessorStatus) (op : ℕ)
    (bs pre post : List ℕ) (mode : AddrMode) (l : ℕ)
    → is_exception instr.opcode (resolve instr.mode instr.modifier value1) ≡ false
    → st.longa ≡ not s.m_flag
    → st.longi ≡ not s.x_flag
    → machine_code em_816 instr value1 value2 value3 (globals st) ≡ op ∷ bs
    → labelled s op ≡ some (mode, l)
    → disassemble_instruction s (pre ++ (op ∷ (bs ++ post))) (length pre)
      ≡ some (decoded (length pre) op mode bs, updated op (number bs) s)
disassemble-machine_code instr value1 value2 value3 st s op bs pre post mode l x ea ei code named =
    let emits = codegen_gen-Emits em_816 instr value1 value2 value3 st in
    let small : All IsByte (op ∷ bs) = subst (All IsByte) code emits.are_bytes in
    let whole : length (op ∷ bs) ≡ instruction_length st.longa st.longi op =
      subst (IsWhole st.longa st.longi) code
        (machine_code-IsWhole value1 value2 value3 (globals st) em_816 instr refl x) in
    let same : l ≡ length (op ∷ bs) =
      decode_instruction-length s op mode l small.0 named
      ∙ ap (λ b. instruction_length b (not s.x_flag) op) (sym ea)
      ∙ ap (λ b. instruction_length st.longa b op) (sym ei)
      ∙ sym whole in
    let bound : length bs < 4 = omega (arith, whole, length-bound st.longa st.longi op) in
    reads_whole s op mode pre bs post (named ∙ ap (λ k. some (mode, k)) same) bound
