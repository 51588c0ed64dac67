-- ===== src/Codegen/Branch/Bits.antt =====
-- The branches of the Rockwell processors on one bit of the zero page, BBR and BBS.
use Prim.Native.Nat.{bit_or}
use tools.Base.{
  ℕ, zero, suc, ◌+◌, ◌*◌, ◌%◌, ◌<◌, ◌≤◌, ◌≡◌, ◌⊎◌, refl, Bool, true, false, List, [], ◌∷◌, Option,
  none, some, arith, int_mod, sub_int, subst, ap, ◌∙◌,
}
use tools.Cpu.{
  OpCode, bbr, bbs, AddrMode, bit_absolute_relative, bit_zero_page_relative, Instr, Machine,
  em_rc02, em_rc01, em_rc19,
}
use tools.Cpu.{Modifier, em_816}
use tools.Cpu.Modes.{AllModes, mode_by_cases}
use tools.Codegen.State.{State, Globals, globals}
use tools.Codegen.Call.{obitzr}
use tools.Codegen.Mode.{resolve}
use tools.Codegen.Gen.{codegen_gen}
use tools.Codegen.Rockwell65C02
use tools.Codegen.RockwellC19
use tools.Codegen.Layout.{Emits}
use tools.Codegen.Encoding.{encode_all, encoding, low_byte}
use tools.Codegen.MachineCode.{table, code, machine_code, codegen_gen-Emits}
use tools.Codegen.Branch.{sign_extend}

abbrev pub has_bits : Machine → Bool
has_bits em_rc02 = true
has_bits em_rc01 = true
has_bits em_rc19 = true
has_bits _ = false

-- the opcode byte for bit 0
abbrev pub bit_branch_opcode : OpCode → Option ℕ
bit_branch_opcode bbr = some 0x0f
bit_branch_opcode bbs = some 0x8f
bit_branch_opcode _ = none

abbrev pub is_bit_label : AddrMode → Bool
is_bit_label bit_absolute_relative = true
is_bit_label bit_zero_page_relative = true
is_bit_label _ = false

-- the address behind the three bytes plus the signed offset in the last
abbrev pub lands_bit : ℕ → List ℕ → ℕ
lands_bit a (op ∷ mem ∷ r ∷ []) = (a + 3 + sign_extend r) % int_mod
lands_bit a _ = a

abbrev pub InBitReach : ℕ → ℕ → Type 0
InBitReach a v = (a + 3 ≤ v + 128) × (v ≤ a + 3 + 127)

lands-InBitReach :
    (a b m v : ℕ)
    → v < int_mod
    → a + 3 < 0x8000_0000
    → InBitReach a v
    → lands_bit a (b ∷ m ∷ low_byte (sub_int v (a + 3)) ∷ []) ≡ v
lands-InBitReach a b m v hv ha reach = ground arith

opcode_of_bit :
    (b bit : ℕ) → (b ≡ 0x0f) ⊎ (b ≡ 0x8f) → bit < 8 → bit_or b (bit * 16) % 256 ≡ b + bit * 16
opcode_of_bit b zero h e = ground arith
opcode_of_bit b (suc zero) h e = ground arith
opcode_of_bit b (suc (suc zero)) h e = ground arith
opcode_of_bit b (suc (suc (suc zero))) h e = ground arith
opcode_of_bit b (suc (suc (suc (suc zero)))) h e = ground arith
opcode_of_bit b (suc (suc (suc (suc (suc zero))))) h e = ground arith
opcode_of_bit b (suc (suc (suc (suc (suc (suc zero)))))) h e = ground arith
opcode_of_bit b (suc (suc (suc (suc (suc (suc (suc zero))))))) h e = ground arith
opcode_of_bit b (suc (suc (suc (suc (suc (suc (suc (suc n)))))))) h e = absurd (omega (arith, e))

is_bit_label-resolve :
    (mode : AddrMode) (m : Modifier) (v : ℕ)
    → is_bit_label mode ≡ true
    → is_bit_label (resolve mode m v) ≡ true
unfolding resolve
is_bit_label-resolve bit_absolute_relative m v e = refl
is_bit_label-resolve bit_zero_page_relative m v e = refl
is_bit_label-resolve _ m v e = cc

module _ (v mem bit : ℕ) (g : Globals) where
  abbrev BitBranches : Machine → OpCode → ℕ → AddrMode → Type 0
  BitBranches machine op b mode =
      is_bit_label mode ≡ true → table machine op mode v mem bit g ≡ some (obitzr b bit mem v ∷ [])

  table-BitBranches :
      (machine : Machine) (op : OpCode) (b : ℕ)
      → has_bits machine ≡ true
      → bit_branch_opcode op ≡ some b
      → AllModes (BitBranches machine op b)
  unfolding table Rockwell65C02.entry RockwellC19.entry
  table-BitBranches em_816 bbr b k h = ground arith
  table-BitBranches _ _ b k h = ground arith

bit_branch-code :
    (machine : Machine) (instr : Instr) (b v mem bit : ℕ) (g : Globals)
    → has_bits machine ≡ true
    → bit_branch_opcode instr.opcode ≡ some b
    → is_bit_label instr.mode ≡ true
    → machine_code machine instr v mem bit g
      ≡ bit_or b (bit * 16) % 256 ∷ low_byte mem ∷ low_byte (sub_int v (g.addr + 3)) ∷ []
unfolding machine_code code encode_all encoding
bit_branch-code machine instr b v mem bit g k h e =
    ap (λ x. code x g.addr)
      (mode_by_cases (BitBranches v mem bit g machine instr.opcode b)
        (table-BitBranches v mem bit g machine instr.opcode b k h)
        (resolve instr.mode instr.modifier v) (is_bit_label-resolve instr.mode instr.modifier v e))

bit_branch_opcode-cases :
    (op : OpCode) (b : ℕ) → bit_branch_opcode op ≡ some b → (b ≡ 0x0f) ⊎ (b ≡ 0x8f)
bit_branch_opcode-cases bbr b h = ground arith
bit_branch_opcode-cases _ b h = ground arith

-- On the Rockwell processors BBR and BBS of a bit below 8 of a zero page address, at an address
-- below 2 ^ 31 - 3 and to a label below 2 ^ 32 within -128 .. 127 of the address behind them,
-- emit the opcode of the bit, the zero page address and one offset byte, by which the processor
-- lands on the label.
pub bit_branch_reaches :
    (machine : Machine) (instr : Instr) (b v mem bit : ℕ) (s : State)
    → has_bits machine ≡ true
    → bit_branch_opcode instr.opcode ≡ some b
    → is_bit_label instr.mode ≡ true
    → bit < 8
    → mem < 256
    → v < int_mod
    → s.addr + 3 < 0x8000_0000
    → InBitReach s.addr v
    → (r : ℕ) × Emits s (codegen_gen machine instr v mem bit s) ((b + bit * 16) ∷ mem ∷ r ∷ [])
      × (lands_bit s.addr ((b + bit * 16) ∷ mem ∷ r ∷ []) ≡ v)
bit_branch_reaches machine instr b v mem bit s k h e eight zero_page hv ha reach =
    let r = low_byte (sub_int v (s.addr + 3)) in
    let opcode = opcode_of_bit b bit (bit_branch_opcode-cases instr.opcode b h) eight in
    let address : low_byte mem ≡ mem = omega (arith, zero_page) in
    let bytes : machine_code machine instr v mem bit (globals s) ≡ (b + bit * 16) ∷ mem ∷ r ∷ [] =
      bit_branch-code machine instr b v mem bit (globals s) k h e
      ∙ ap (λ x. x ∷ low_byte mem ∷ r ∷ []) opcode
      ∙ ap (λ x. (b + bit * 16) ∷ x ∷ r ∷ []) address in
    (
      r,
      subst (Emits s (codegen_gen machine instr v mem bit s)) bytes
          (codegen_gen-Emits machine instr v mem bit s),
      lands-InBitReach s.addr (b + bit * 16) mem v hv ha reach,
    )
