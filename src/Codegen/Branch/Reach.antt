-- ===== src/Codegen/Branch/Reach.antt =====
-- Conditional branches: the bytes take the processor to the label, or an error is reported.
use tools.Base.{
  ℕ, ◌+◌, ◌%◌, ◌<◌, ◌≡◌, ◌≢◌, ◌⊎◌, true, false, [], ◌∷◌, ◌++◌, some, arith, sub_int, subst, int_mod,
  ◌∙◌, Bool, ◌&&◌, ◌||◌, ◌==◌, is_neg, if◌then◌else◌,
}
use tools.Cpu.{OpCode, adc, Instr, Machine, em_other}
use tools.Codegen.State.{State, branch_out_of_range}
use tools.Codegen.Emit.{o, branch, relative, too_far}
use tools.Codegen.Call
use tools.Codegen.Gen.{codegen_gen}
use tools.Codegen.Layout.{Emits}
use tools.Codegen.Encoding.{low_byte, encoding, perform-Emits}
use tools.Codegen.Branch.{lands, InReach, branch_opcode, is_label, codegen_gen-branch}

-- `codegen_current_pass <= 0`: the output pass, or no pass at all
abbrev pub is_final : State → Bool
is_final s = is_neg s.current_pass || s.current_pass == 0

too_far-InReach :
    (a v : ℕ)
    → v < int_mod
    → a + 2 < 0x8000_0000
    → InReach a v
    → too_far (sub_int v (a + 2)) ≡ false
too_far-InReach a v hv ha reach = ground arith

lands-InReach :
    (a b v : ℕ)
    → v < int_mod
    → a + 2 < 0x8000_0000
    → InReach a v
    → lands a (b ∷ low_byte (sub_int v (a + 2)) ∷ []) ≡ v
lands-InReach a b v hv ha reach = ground arith

abbrev pub IsOutOfReach : ℕ → ℕ → Type 0
IsOutOfReach a v = (v + 128 < a + 2) ⊎ (a + 2 + 127 < v)

too_far-IsOutOfReach :
    (a v : ℕ)
    → v < 0x8000_0000
    → a + 2 < 0x8000_0000
    → IsOutOfReach a v
    → too_far (sub_int v (a + 2)) ≡ true
too_far-IsOutOfReach a v hv ha far = ground arith

branch-Emits :
    (op v : ℕ) (s : State)
    → Emits s (branch op v s) (op % 256 ∷ low_byte (sub_int v (s.addr + 2)) ∷ [])
unfolding Call.perform encoding
branch-Emits op v s = perform-Emits (Call.branch op v) s

pub branch-diagnostics :
    (op v : ℕ) (s : State)
    → (branch op v s).diagnostics ≡ (
        if too_far (sub_int v (s.addr + 2)) && is_final s
        then s.diagnostics ++ branch_out_of_range (s.addr + 1) v ∷ []
        else s.diagnostics)
unfolding branch relative o
branch-diagnostics op v s = let e : s.addr + 1 + 1 ≡ s.addr + 2 = omega arith in rw e (ground arith)

branch_opcode_byte : (op : OpCode) (b : ℕ) → branch_opcode op ≡ some b → b % 256 ≡ b
branch_opcode_byte adc b h = ground arith
branch_opcode_byte _ b h = ground arith

module _ (machine : Machine) (instr : Instr) (b v value2 value3 : ℕ) (s : State) where
  -- On every machine with a table, a conditional branch at an address below 2 ^ 31 - 2, whose
  -- operand is parsed as a label v other than 0 below 2 ^ 32 that lies within -128 .. 127 of the
  -- address behind the branch, emits its opcode byte and one offset byte, by which the processor
  -- lands on v, and reports nothing.
  pub branch_reaches :
      machine ≢ em_other
      → branch_opcode instr.opcode ≡ some b
      → is_label instr.mode ≡ true
      → v ≢ 0
      → v < int_mod
      → s.addr + 2 < 0x8000_0000
      → InReach s.addr v
      → (r : ℕ) × Emits s (codegen_gen machine instr v value2 value3 s) (b ∷ r ∷ [])
        × (lands s.addr (b ∷ r ∷ []) ≡ v)
        × ((codegen_gen machine instr v value2 value3 s).diagnostics ≡ s.diagnostics)
  branch_reaches k h e z hv ha reach =
      let r = low_byte (sub_int v (s.addr + 2)) in
      let near = too_far-InReach s.addr v hv ha reach in
      rw (codegen_gen-branch machine instr b v value2 value3 s k h e z) (
        r,
        subst (λ c. Emits s (branch b v s) (c ∷ r ∷ [])) (branch_opcode_byte instr.opcode b h)
            (branch-Emits b v s),
        lands-InReach s.addr b v hv ha reach,
        branch-diagnostics b v s ∙ rw near,
      )

  -- On every machine with a table, a conditional branch at an address below 2 ^ 31 - 2 to a label
  -- other than 0 below 2 ^ 31 that lies farther than -128 .. 127 from the address behind it is
  -- reported once in the output pass; in the passes before it nothing is reported.
  pub branch_error :
      machine ≢ em_other
      → branch_opcode instr.opcode ≡ some b
      → is_label instr.mode ≡ true
      → v ≢ 0
      → v < 0x8000_0000
      → s.addr + 2 < 0x8000_0000
      → IsOutOfReach s.addr v
      → (codegen_gen machine instr v value2 value3 s).diagnostics ≡ (
          if is_final s
          then s.diagnostics ++ branch_out_of_range (s.addr + 1) v ∷ []
          else s.diagnostics)
  branch_error k h e z hv ha far =
      rw (codegen_gen-branch machine instr b v value2 value3 s k h e z)
        (branch-diagnostics b v s ∙ rw (too_far-IsOutOfReach s.addr v hv ha far))
