-- ===== src/Codegen/ReadBack.antt =====
-- Reading back what was emitted.
use tools.Base.{
  ℕ, ◌+◌, ◌-◌, ◌/◌, ◌%◌, ◌≡◌, ◌∙◌, false, List, [], ◌∷◌, ◌++◌, some, arith, length, get_elem?,
  get_elem?-append,
}
use tools.Cpu.{Instr, Machine}
use tools.Codegen.State.{State, globals, read_byte, codegen_getb, codegen_getw}
use tools.Codegen.Emit.{codegen_word}
use tools.Codegen.Gen.{codegen_gen}
use tools.Codegen.Layout.{Emits, Emits-trans, o-Emits}
use tools.Codegen.MachineCode.{machine_code, codegen_gen-Emits}
use tools.Codegen.Patch.{getw-read}

-- The section holds bytes and ends at the address.
abbrev pub IsOpen : State → Type 0
IsOpen s = (s.section.bss ≡ false) × (s.addr ≡ s.section.sh_addr + length s.section.bytes)

read_byte-Emits :
    {s t : State} (bs : List ℕ) (i : ℕ)
    → Emits s t bs
    → IsOpen s
    → read_byte t.section (s.addr + i) ≡ get_elem? bs i
read_byte-Emits {s} {t} bs i h (b, e) =
    let grown : t.section.bytes ≡ s.section.bytes ++ bs = rw b at h.bytes in
    rw grown (
      ground (
        arith,
        e,
        h.sh_addr,
        get_elem?-append s.section.bytes bs i (s.addr + i - t.section.sh_addr)
            (omega (arith, e, h.sh_addr)),
      ))

-- Behind codegen_gen, codegen_getb finds the i-th byte of the machine code i bytes behind the
-- address before it, and no byte behind the last, if the section holds bytes and ends at that address.
pub codegen_getb-codegen_gen :
    (machine : Machine) (instr : Instr) (value1 value2 value3 : ℕ) (s : State) (i : ℕ)
    → IsOpen s
    → codegen_getb (s.addr + i) (codegen_gen machine instr value1 value2 value3 s)
      ≡ get_elem? (machine_code machine instr value1 value2 value3 (globals s)) i
unfolding codegen_getb
codegen_getb-codegen_gen machine instr value1 value2 value3 s i h =
    let emits = codegen_gen-Emits machine instr value1 value2 value3 s in
    ground (arith, h.0, emits.bss, read_byte-Emits _ i emits h)

-- If the section is not bss and ends at the address, that is if codegen_addr was not called since
-- bytes were emitted, a word that codegen_word emits is read back by codegen_getw at that address,
-- modulo 65536.
pub codegen_getw-codegen_word :
    (w : ℕ) (s : State) → IsOpen s → codegen_getw s.addr (codegen_word w s) ≡ some (w % 0x1_0000)
unfolding codegen_word
codegen_getw-codegen_word w s h =
    let emits =
      Emits-trans (w % 256 % 256 ∷ []) (w / 256 % 256 ∷ []) (o-Emits (w % 256) s)
        (o-Emits (w / 256) _) in
    getw-read s.addr (w % 256) (w / 256 % 256) (codegen_word w s) (emits.bss ∙ h.0)
      (ground (arith, read_byte-Emits _ 0 emits h)) (ground (arith, read_byte-Emits _ 1 emits h))
    ∙ ground arith
