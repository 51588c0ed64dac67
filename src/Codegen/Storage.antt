-- ===== src/Codegen/Storage.antt =====
-- The bytes of a section as they stand in the buffer that holds them.
use tools.Base.{
  ℕ, ◌+◌, ◌%◌, ◌≤◌, ◌≡◌, ◌∙◌, sym, ap, refl, false, List, [], ◌∷◌, ◌++◌, some, arith, length, All,
}
use tools.Cpu.{Instr, Machine}
use tools.Codegen.State.{State, globals}
use tools.Codegen.Gen.{codegen_gen}
use tools.Codegen.Layout.{IsByte, Emits-grown}
use tools.Codegen.MachineCode.{machine_code, codegen_gen-Emits}
use tools.Buffer.{Allocator, Buffer}
use tools.Buffer.Growth.{contents, IsRoomy, max_bytes}
use tools.Buffer.Chars.{bytes_of, add_chars, add_chars_lem}

bytes_of_bytes : (bs : List ℕ) → All IsByte bs → bytes_of bs ≡ bs
bytes_of_bytes [] h = refl
bytes_of_bytes (b ∷ bs) (h, k) =
    let e : b % 256 ≡ b = omega (arith, h) in rw e (ap (λ xs. b ∷ xs) (bytes_of_bytes bs k))

-- If a roomy buffer holds the bytes of a section that is not bss, adding the machine code byte by
-- byte with buf_add_char succeeds up to 2 ^ 30 bytes, and the buffer holds the bytes of the
-- section behind codegen_gen.
pub add_chars-codegen_gen :
    (alloc : Allocator) (machine : Machine) (instr : Instr) (value1 value2 value3 : ℕ) (s : State)
    (b : Buffer)
    → s.section.bss ≡ false
    → contents b ≡ s.section.bytes
    → IsRoomy b
    → b.num + length (machine_code machine instr value1 value2 value3 (globals s)) ≤ max_bytes
    → (b' : Buffer) × (add_chars alloc
          (machine_code machine instr value1 value2 value3 (globals s))
          b
        ≡ some b')
      × (contents b' ≡ (codegen_gen machine instr value1 value2 value3 s).section.bytes)
add_chars-codegen_gen alloc machine instr value1 value2 value3 s b e same roomy small =
    let bs = machine_code machine instr value1 value2 value3 (globals s) in
    let emits = codegen_gen-Emits machine instr value1 value2 value3 s in
    let (b', runs, kept) = add_chars_lem alloc bs b roomy small in
    (
      b',
      runs,
      kept
          ∙ ap (λ xs. xs ++ bytes_of bs) same
          ∙ ap (λ xs. s.section.bytes ++ xs) (bytes_of_bytes bs emits.are_bytes)
          ∙ sym (Emits-grown bs emits e),
    )
