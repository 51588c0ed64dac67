-- ===== src/Codegen/Branch/Promotion.antt =====
-- BRA and BRL on the 65C816, which turn into one another by the distance to the label.
use tools.Base.{
  ℕ, ◌+◌, ◌<◌, ◌≤◌, ◌≡◌, ◌≢◌, ◌∙◌, refl, ap, subst, Bool, true, false, ◌&&◌, List, [], ◌∷◌, ◌++◌,
  some, arith, append-nil, if◌then◌else◌, sub_int, int_mod, Bool-cases, inl, inr,
}
use tools.Cpu.{OpCode, bra, brl, AddrMode, Instr, em_816}
use tools.Cpu.Modes.{AllModes, mode_by_cases}
use tools.Codegen.State.{State, Diagnostic, promoted, demoted, branch_out_of_range, globals}
use tools.Codegen.Emit
use tools.Codegen.Emit.{too_far, too_far_long}
use tools.Codegen.Call.{Call, warn, orl, branch, finish, perform, perform_all}
use tools.Codegen.Mode.{resolve}
use tools.Codegen.Gen.{codegen_gen}
use tools.Codegen.Wdc816
use tools.Codegen.Layout.{Emits}
use tools.Codegen.Encoding.{low_byte, high_byte, encode_all, encoding, perform_all-Emits}
use tools.Codegen.MachineCode.{table}
use tools.Codegen.Branch.{lands, is_label, is_label-resolve, codegen_gen-finish}
use tools.Codegen.Branch.Reach.{is_final, branch-diagnostics}

-- BRA or BRL
abbrev pub is_always : OpCode → Bool
is_always bra = true
is_always brl = true
is_always _ = false

abbrev pub warning : OpCode → ℕ → Bool → List Diagnostic
warning bra v true = promoted v ∷ []
warning brl v false = demoted v ∷ []
warning _ v _ = []

-- A BRL at `a` can reach `v`.
abbrev pub InLongReach : ℕ → ℕ → Type 0
InLongReach a v = (a + 3 ≤ v + 0x8000) × (v ≤ a + 3 + 0x7fff)

-- the bytes of either instruction
abbrev pub always_code : ℕ → ℕ → List ℕ
always_code a v =
    if too_far (sub_int v (a + 1))
    then 0x82 ∷ low_byte (sub_int v (a + 3)) ∷ high_byte (sub_int v (a + 3)) ∷ []
    else 0x80 ∷ low_byte (sub_int v (a + 2)) ∷ []

lands_always :
    (a v : ℕ)
    → v < int_mod
    → a + 3 < 0x8000_0000
    → InLongReach a v
    → v + 129 ≢ a + 2
    → lands a (always_code a v) ≡ v
lands_always a v hv ha reach gap = ground arith

always_calls : OpCode → ℕ → Bool → List Call
always_calls bra v true = warn (promoted v) ∷ orl 0x82 v ∷ []
always_calls brl v true = orl 0x82 v ∷ []
always_calls brl v false = warn (demoted v) ∷ branch 0x80 v ∷ []
always_calls op v far = branch 0x80 v ∷ []

module _ (op : OpCode) (v value2 value3 : ℕ) (s : State) where
  abbrev Always : AddrMode → Type 0
  Always mode =
      is_label mode ≡ true
      → table em_816 op mode v value2 value3 (globals s)
        ≡ some (always_calls op v (too_far (sub_int v (s.addr + 1))))

table-Always :
    (op : OpCode) (v value2 value3 : ℕ) (s : State)
    → is_always op ≡ true
    → v ≢ 0
    → AllModes (Always op v value2 value3 s)
unfolding table Wdc816.entry Wdc816.Branches.bra Wdc816.Branches.brl always_calls
table-Always bra v value2 value3 s k z = ground arith
table-Always brl v value2 value3 s k z = ground arith
table-Always _ v value2 value3 s k z = cc

module _ (instr : Instr) (v value2 value3 : ℕ) (s : State) where
  codegen_gen-always :
      is_always instr.opcode ≡ true
      → is_label instr.mode ≡ true
      → v ≢ 0
      → codegen_gen em_816 instr v value2 value3 s
        ≡ perform_all (always_calls instr.opcode v (too_far (sub_int v (s.addr + 1)))) s
  unfolding finish
  codegen_gen-always k e z =
      let mode = resolve instr.mode instr.modifier v in
      codegen_gen-finish em_816 instr v value2 value3 s
      ∙ ap (λ x. finish em_816 instr.opcode mode x s)
          (mode_by_cases (Always instr.opcode v value2 value3 s)
            (table-Always instr.opcode v value2 value3 s k z) mode
            (is_label-resolve instr.mode instr.modifier v e))

encode_always :
    (op : OpCode) (v a : ℕ) (far : Bool)
    → is_always op ≡ true
    → encode_all (always_calls op v far) a ≡ (
        if far
        then 0x82 ∷ low_byte (sub_int v (a + 3)) ∷ high_byte (sub_int v (a + 3)) ∷ []
        else 0x80 ∷ low_byte (sub_int v (a + 2)) ∷ [])
unfolding encode_all encoding always_calls
encode_always bra v a true k = let e : a + 0 + 3 ≡ a + 3 = omega arith in rw e
encode_always bra v a false k = refl
encode_always brl v a true k = refl
encode_always brl v a false k = let e : a + 0 + 2 ≡ a + 2 = omega arith in rw e
encode_always _ v a far k = cc

always-Emits :
    (op : OpCode) (v : ℕ) (s : State)
    → is_always op ≡ true
    → Emits s
        (perform_all (always_calls op v (too_far (sub_int v (s.addr + 1)))) s)
        (always_code s.addr v)
always-Emits op v s k =
    subst (Emits s (perform_all (always_calls op v far) s)) (encode_always op v s.addr far k)
      (perform_all-Emits (always_calls op v far) s)
  where
    far : Bool
    far = too_far (sub_int v (s.addr + 1))

orl-diagnostics :
    (op v : ℕ) (s : State)
    → (Emit.orl op v s).diagnostics ≡ (
        if too_far_long (sub_int v (s.addr + 3)) && is_final s
        then s.diagnostics ++ branch_out_of_range (s.addr + 1) v ∷ []
        else s.diagnostics)
unfolding Emit.orl Emit.o
orl-diagnostics op v s = let e : s.addr + 1 + 2 ≡ s.addr + 3 = omega arith in rw e (ground arith)

too_far-next :
    (a v : ℕ)
    → v < int_mod
    → a + 3 < 0x8000_0000
    → InLongReach a v
    → v + 129 ≢ a + 2
    → too_far (sub_int v (a + 1)) ≡ false
    → too_far (sub_int v (a + 2)) ≡ false
too_far-next a v hv ha reach gap near = ground arith

-- at the distance where the two tests differ
gap_tests :
    (a v : ℕ)
    → a + 3 < 0x8000_0000
    → v + 129 ≡ a + 2
    → (too_far (sub_int v (a + 1)) ≡ false)
      × (too_far (sub_int v (a + 2)) ≡ true)
      × (low_byte (sub_int v (a + 2)) ≡ 127)
gap_tests a v ha gap = ground arith

too_far_long-InLongReach :
    (a v : ℕ)
    → v < int_mod
    → a + 3 < 0x8000_0000
    → InLongReach a v
    → too_far_long (sub_int v (a + 3)) ≡ false
too_far_long-InLongReach a v hv ha reach = ground arith

-- the error of the instruction that is chosen, behind its warning
always-diagnostics :
    (op : OpCode) (v : ℕ) (s : State) (far : Bool)
    → is_always op ≡ true
    → (perform_all (always_calls op v far) s).diagnostics ≡ (
        if (if far then too_far_long (sub_int v (s.addr + 3)) else too_far (sub_int v (s.addr + 2)))
          && is_final s
        then (s.diagnostics ++ warning op v far) ++ branch_out_of_range (s.addr + 1) v ∷ []
        else s.diagnostics ++ warning op v far)
unfolding perform_all always_calls perform
always-diagnostics bra v s true k = orl-diagnostics 0x82 v _
always-diagnostics bra v s false k = rw append-nil (branch-diagnostics 0x80 v s)
always-diagnostics brl v s true k = rw append-nil (orl-diagnostics 0x82 v s)
always-diagnostics brl v s false k = branch-diagnostics 0x80 v _
always-diagnostics _ v s far k = cc

module _ (instr : Instr) (v value2 value3 : ℕ) (s : State) where
  -- On the 65C816 BRA and BRL at an address below 2 ^ 31 - 3, to a label v other than 0 below 2 ^
  -- 32 within reach of a BRL, emit a BRA or a BRL by which the processor lands on v, and report
  -- nothing but the change of one into the other, unless v lies 129 bytes before the end of a
  -- BRA.
  pub always_reaches :
      is_always instr.opcode ≡ true
      → is_label instr.mode ≡ true
      → v ≢ 0
      → v < int_mod
      → s.addr + 3 < 0x8000_0000
      → InLongReach s.addr v
      → v + 129 ≢ s.addr + 2
      → Emits s (codegen_gen em_816 instr v value2 value3 s) (always_code s.addr v)
        × (lands s.addr (always_code s.addr v) ≡ v)
        × ((codegen_gen em_816 instr v value2 value3 s).diagnostics
            ≡ s.diagnostics ++ warning instr.opcode v (too_far (sub_int v (s.addr + 1))))
  always_reaches k e z hv ha reach gap = rw (codegen_gen-always instr v value2 value3 s k e z) (
    always-Emits instr.opcode v s k,
    lands_always s.addr v hv ha reach gap,
    always-diagnostics instr.opcode v s _ k ∙ quiet,
  )
    where
      quiet :
          (if (if too_far (sub_int v (s.addr + 1))
                then too_far_long (sub_int v (s.addr + 3))
                else too_far (sub_int v (s.addr + 2)))
              && is_final s
            then (s.diagnostics ++ warning instr.opcode v (too_far (sub_int v (s.addr + 1))))
              ++ branch_out_of_range (s.addr + 1) v ∷ []
            else s.diagnostics ++ warning instr.opcode v (too_far (sub_int v (s.addr + 1))))
          ≡ s.diagnostics ++ warning instr.opcode v (too_far (sub_int v (s.addr + 1)))
      quiet = elim (Bool-cases (too_far (sub_int v (s.addr + 1)))) [
        | inl far ↦ rw (far, too_far_long-InLongReach s.addr v hv ha reach)
        | inr near ↦ rw (near, too_far-next s.addr v hv ha reach gap near)
      ]

  -- On the 65C816 a BRA or BRL at an address below 2 ^ 31 - 3 to a label v other than 0 that lies
  -- 129 bytes before the end of a BRA becomes a BRA whose offset byte is 127, which lands 256
  -- bytes behind v, and is reported as out of range in the output pass, though a BRL reaches v.
  pub always_gap :
      is_always instr.opcode ≡ true
      → is_label instr.mode ≡ true
      → v ≢ 0
      → s.addr + 3 < 0x8000_0000
      → v + 129 ≡ s.addr + 2
      → InLongReach s.addr v
        × Emits s (codegen_gen em_816 instr v value2 value3 s) (0x80 ∷ 127 ∷ [])
        × (lands s.addr (0x80 ∷ 127 ∷ []) ≡ v + 256)
        × ((codegen_gen em_816 instr v value2 value3 s).diagnostics ≡ (
            if is_final s
            then (s.diagnostics ++ warning instr.opcode v false)
              ++ branch_out_of_range (s.addr + 1) v ∷ []
            else s.diagnostics ++ warning instr.opcode v false))
  always_gap k e z ha gap =
      let (near, far, offset) = gap_tests s.addr v ha gap in
      rw (codegen_gen-always instr v value2 value3 s k e z) (
        omega arith,
        rw near (rw (near, offset) at (always-Emits instr.opcode v s k)),
        omega arith,
        rw near (rw far at (always-diagnostics instr.opcode v s false k)),
      )
