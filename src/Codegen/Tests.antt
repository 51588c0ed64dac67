-- ===== src/Codegen/Tests.antt =====
-- The theorems at concrete states, instructions and operands.
use tools.Base.{
  ℕ, ◌<◌, ◌≤◌, ◌≡◌, ◌≢◌, ◌⊎◌, refl, false, true, List, [], ◌∷◌, some, inl, inr, arith, length,
}
use tools.Cpu.{
  lda, jsl, beq, brl, bbs, bit_zero_page_relative, absolute, absolute_indirect, m_none, Instr,
  Machine, em_816, em_c02, em_02, em_rc02,
}
use tools.Codegen.State.{
  State, globals, codegen_getb, codegen_getw, codegen_updateb, codegen_updatew, not_supported,
  demoted, branch_out_of_range,
}
use tools.Codegen.Mode.{resolve, is_dp}
use tools.Codegen.Gen.{codegen_gen}
use tools.Codegen.Wdc816
use tools.Codegen.Wdc65C02
use tools.Codegen.Mos6502
use tools.Codegen.Rockwell65C02
use tools.Codegen.Layout.{Emits, IsLaidOut}
use tools.Codegen.Encoding.{encode_all, encoding}
use tools.Codegen.Branch.{lands}
use tools.Codegen.Branch.Bits.{lands_bit, bit_branch_reaches}
use tools.Codegen.Branch.Reach.{branch_reaches, branch_error}
use tools.Codegen.Branch.Promotion.{InLongReach, always_reaches, always_gap}
use tools.Codegen.Compat.{mos6502-wdc65c02, wdc65c02-wdc816, wdc65c02-rockwell65c02}
use tools.Codegen.Operand.{number, machine_code-label}
use tools.Codegen.Lengths.{IsWhole, machine_code-IsWhole}
use tools.Codegen.Errors.{emits_or_reports}
use tools.Codegen.Relocation.{codegen_gen-reloc}
use tools.Codegen.Shape.{codegen_gen_advance}
use tools.Codegen.Patch.{codegen_getb-updateb, codegen_getw-updatew}
use tools.Codegen.ReadBack.{codegen_getb-codegen_gen, codegen_getw-codegen_word}
use tools.Codegen.Emit.{codegen_word}
use tools.Codegen.Storage.{add_chars-codegen_gen}
use tools.Buffer.{Buffer}
use tools.Buffer.Growth.{contents}
use tools.Buffer.Chars.{add_chars}
use tools.Buffer.Clearing.{clearing}
use tools.Codegen.MachineCode.{
  table, code, machine_code, codegen_gen-Emits, codegen_gen-IsLaidOut, codegen_gen_same,
}

abbrev text : State
text = record {
  section = record { bss = false; sh_addr = 0x8000; bytes = 0xea ∷ [] };
  addr = 0x8001;
  longa = false;
  longi = false;
  reloc = [];
  current_pass = 0;
  diagnostics = [];
}

-- the same place in the first pass over a section without contents
abbrev bss : State
bss = record text {
  section = record { bss = true; sh_addr = 0x8000; bytes = [] };
  current_pass = 1;
}

-- with room for a word
abbrev words : State
words = record text {
  section = record { bss = false; sh_addr = 0x8000; bytes = 0 ∷ 0 ∷ [] };
  addr = 0x8002;
}

abbrev load : Instr
load = record { opcode = lda; mode = absolute; modifier = m_none }

codegen_gen-Emits_example :
    Emits text (codegen_gen em_816 load 0x1234 0 0 text) (0xad ∷ 0x34 ∷ 0x12 ∷ [])
unfolding machine_code table Wdc816.entry resolve is_dp code encode_all encoding
codegen_gen-Emits_example = codegen_gen-Emits em_816 load 0x1234 0 0 text

codegen_gen-IsLaidOut_example : IsLaidOut (codegen_gen em_816 load 0x1234 0 0 text)
codegen_gen-IsLaidOut_example =
    codegen_gen-IsLaidOut em_816 load 0x1234 0 0 text (inr (omega arith))

codegen_gen_same_example :
    (bs : List ℕ) × Emits text (codegen_gen em_816 load 0x12 0 0 text) bs
    × Emits bss (codegen_gen em_816 load 0x12 0 0 bss) bs
    × (globals (codegen_gen em_816 load 0x12 0 0 text)
        ≡ globals (codegen_gen em_816 load 0x12 0 0 bss))
codegen_gen_same_example = codegen_gen_same em_816 load 0x12 0 0 text bss refl

abbrev equal : Instr
equal = record { opcode = beq; mode = absolute; modifier = m_none }

branch_reaches_example :
    (r : ℕ) × Emits text (codegen_gen em_02 equal 0x8000 0 0 text) (0xf0 ∷ r ∷ [])
    × (lands 0x8001 (0xf0 ∷ r ∷ []) ≡ 0x8000)
    × ((codegen_gen em_02 equal 0x8000 0 0 text).diagnostics ≡ [])
branch_reaches_example =
    branch_reaches em_02 equal 0xf0 0x8000 0 0 text (ground arith) refl refl (omega arith)
      (omega arith) (omega arith) (omega arith)

branch_error_example :
    (codegen_gen em_02 equal 0x8100 0 0 text).diagnostics ≡ branch_out_of_range 0x8002 0x8100 ∷ []
branch_error_example =
    branch_error em_02 equal 0xf0 0x8100 0 0 text (ground arith) refl refl (omega arith)
      (omega arith) (omega arith) (omega arith)

abbrev always : Instr
always = record { opcode = brl; mode = absolute; modifier = m_none }

always_reaches_example :
    Emits text (codegen_gen em_816 always 0x9000 0 0 text) (0x82 ∷ 0xfc ∷ 0x0f ∷ [])
    × (lands 0x8001 (0x82 ∷ 0xfc ∷ 0x0f ∷ []) ≡ 0x9000)
    × ((codegen_gen em_816 always 0x9000 0 0 text).diagnostics ≡ [])
always_reaches_example =
    always_reaches always 0x9000 0 0 text refl refl (omega arith) (omega arith) (omega arith)
      (omega arith) (omega arith)

always_gap_example :
    InLongReach 0x8001 0x7f82
    × Emits text (codegen_gen em_816 always 0x7f82 0 0 text) (0x80 ∷ 127 ∷ [])
    × (lands 0x8001 (0x80 ∷ 127 ∷ []) ≡ 0x8082)
    × ((codegen_gen em_816 always 0x7f82 0 0 text).diagnostics
        ≡ demoted 0x7f82 ∷ branch_out_of_range 0x8002 0x7f82 ∷ [])
always_gap_example = always_gap always 0x7f82 0 0 text refl refl (omega arith) (omega arith) refl

load_codes :
    (machine : Machine)
    → (machine ≡ em_02) ⊎ (machine ≡ em_c02) ⊎ (machine ≡ em_rc02)
    → machine_code machine load 0x1234 0 0 (globals text) ≢ []
unfolding machine_code table Wdc65C02.entry Mos6502.entry Rockwell65C02.entry resolve is_dp code
    encode_all encoding
load_codes machine h e = ground arith

mos6502-wdc65c02_example :
    machine_code em_c02 load 0x1234 0 0 (globals text)
    ≡ machine_code em_02 load 0x1234 0 0 (globals text)
mos6502-wdc65c02_example =
    mos6502-wdc65c02 0x1234 0 0 (globals text) load (load_codes em_02 (inl refl))

wdc65c02-wdc816_example :
    machine_code em_816 load 0x1234 0 0 (globals text)
    ≡ machine_code em_c02 load 0x1234 0 0 (globals text)
wdc65c02-wdc816_example =
    wdc65c02-wdc816 0x1234 0 0 (globals text) load (ground arith) (omega arith) refl refl
      (load_codes em_c02 (inr (inl refl)))

wdc65c02-rockwell65c02_example :
    machine_code em_rc02 load 0x1234 0 0 (globals text)
    ≡ machine_code em_c02 load 0x1234 0 0 (globals text)
wdc65c02-rockwell65c02_example =
    wdc65c02-rockwell65c02 0x1234 0 0 (globals text) load (ground arith) (ground arith)
      (ground arith) (load_codes em_c02 (inr (inl refl))) (load_codes em_rc02 (inr (inr refl)))

abbrev pointer : Instr
pointer = record { opcode = lda; mode = absolute_indirect; modifier = m_none }

machine_code-label_example : number (0x34 ∷ 0x12 ∷ []) ≡ 0x1234
unfolding machine_code table Wdc816.entry resolve is_dp code encode_all encoding
machine_code-label_example =
    machine_code-label 0x1234 0 0 (globals text) em_816 load refl refl refl (omega arith)

abbrev call : Instr
call = record { opcode = jsl; mode = absolute; modifier = m_none }

emits_or_reports_example :
    (0 < length (machine_code em_02 call 0x1234 0 0 (globals text)))
    ⊎ (codegen_gen em_02 call 0x1234 0 0 text
        ≡ record text { diagnostics = not_supported em_02 jsl absolute ∷ [] })
unfolding resolve is_dp
emits_or_reports_example =
    emits_or_reports em_02 call 0x1234 0 0 text (ground arith) (ground arith) (omega arith)

codegen_gen-reloc_example : (codegen_gen em_816 call 0x1234 0 0 text).reloc ≡ 0x8001 ∷ []
unfolding resolve is_dp
codegen_gen-reloc_example = codegen_gen-reloc em_816 call 0x1234 0 0 text

codegen_gen_advance_example :
    (0x8001 ≤ (codegen_gen em_816 call 0x1234 0 0 text).addr)
    × ((codegen_gen em_816 call 0x1234 0 0 text).addr ≤ 0x8005)
codegen_gen_advance_example = codegen_gen_advance em_816 call 0x1234 0 0 text

codegen_getb-codegen_gen_example :
    codegen_getb 0x8002 (codegen_gen em_816 load 0x1234 0 0 text) ≡ some 0x34
unfolding machine_code table Wdc816.entry resolve is_dp code encode_all encoding
codegen_getb-codegen_gen_example =
    codegen_getb-codegen_gen em_816 load 0x1234 0 0 text 1 (refl, refl)

codegen_getw-codegen_word_example : codegen_getw 0x8001 (codegen_word 0x1_2345 text) ≡ some 0x2345
codegen_getw-codegen_word_example = codegen_getw-codegen_word 0x1_2345 text (refl, refl)

codegen_getb-updateb_example :
    (s : State) × (codegen_updateb 0x8000 0x1ff text ≡ some s)
    × (codegen_getb 0x8000 s ≡ some 0xff)
    × ((◌≡◌ {A = ℕ} 0x8001 0x8000) ⊎ (codegen_getb 0x8001 s ≡ codegen_getb 0x8001 text))
    × (globals s ≡ globals text)
codegen_getb-updateb_example = codegen_getb-updateb 0x8000 0x1ff 0x8001 text refl (omega arith)

codegen_getw-updatew_example :
    (s : State) × (codegen_updatew 0x8000 0x1234 words ≡ some s)
    × (codegen_getw 0x8000 s ≡ some 0x1201)
codegen_getw-updatew_example =
    codegen_getw-updatew 0x8000 0x1234 words refl (omega arith) (omega arith)

-- the buffer behind the section of `text`
abbrev text_buffer : Buffer
text_buffer = record { num = 1; block = some (0xea ∷ []) }

add_chars-codegen_gen_example :
    (b : Buffer) × (add_chars clearing (0xad ∷ 0x34 ∷ 0x12 ∷ []) text_buffer ≡ some b)
    × (contents b ≡ (codegen_gen em_816 load 0x1234 0 0 text).section.bytes)
unfolding machine_code table Wdc816.entry resolve is_dp code encode_all encoding
add_chars-codegen_gen_example =
    add_chars-codegen_gen clearing em_816 load 0x1234 0 0 text text_buffer refl refl
      (inr (0, omega arith, omega arith)) (omega arith)

machine_code-IsWhole_example :
    IsWhole false false (machine_code em_816 load 0x1234 0 0 (globals text))
unfolding resolve is_dp
machine_code-IsWhole_example = machine_code-IsWhole 0x1234 0 0 (globals text) em_816 load refl refl

abbrev bit_set : Instr
bit_set = record { opcode = bbs; mode = bit_zero_page_relative; modifier = m_none }

bit_branch_reaches_example :
    (r : ℕ) × Emits text (codegen_gen em_rc02 bit_set 0x8000 0x12 3 text) (0xbf ∷ 0x12 ∷ r ∷ [])
    × (lands_bit 0x8001 (0xbf ∷ 0x12 ∷ r ∷ []) ≡ 0x8000)
bit_branch_reaches_example =
    bit_branch_reaches em_rc02 bit_set 0x8f 0x8000 0x12 3 text refl refl refl (omega arith)
      (omega arith) (omega arith) (omega arith) (omega arith)
