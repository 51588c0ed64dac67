-- ===== src/Codegen/Patch.antt =====
-- Reading back and patching the bytes of the section: codegen_getb to codegen_updatew.
use tools.Base.{
  ℕ, suc, ◌+◌, ◌*◌, ◌-◌, ◌/◌, ◌%◌, ◌<◌, ◌≤◌, ◌≡◌, ◌≢◌, ◌∙◌, refl, false, some, arith, if◌then◌else◌,
  ltb, ◌==◌, length, set, length-set, get_elem?-set, get_elem?-set_other, inl, inr, Bool-cases, ◌⊎◌,
}
use tools.Codegen.State.{
  Section, State, globals, read_byte, codegen_getb, codegen_getw, codegen_updateb, codegen_updatew,
}

-- an address of a byte that the section holds
abbrev pub IsInside : ℕ → Section → Type 0
IsInside a c = (c.sh_addr ≤ a) × (a < c.sh_addr + length c.bytes)

written : Section → ℕ → ℕ → Section
written c a b = record c { bytes = set c.bytes (a - c.sh_addr) (b % 256) }

read_byte-written :
    (c : Section) (a b : ℕ) → IsInside a c → read_byte (written c a b) a ≡ some (b % 256)
unfolding written
read_byte-written c a b h = ground (arith, get_elem?-set c.bytes (a - c.sh_addr) (b % 256))

read_byte-written_other :
    (c : Section) (a b a' : ℕ)
    → IsInside a c
    → a' ≢ a
    → read_byte (written c a b) a' ≡ read_byte c a'
unfolding written
read_byte-written_other c a b a' h n = elim (Bool-cases (ltb a' c.sh_addr)) [
  | inl e ↦ rw e refl
  | inr e ↦
      rw e
        (get_elem?-set_other c.bytes (a - c.sh_addr) (a' - c.sh_addr) (b % 256) (ground (arith, e)))
]

IsInside-written : (c : Section) (a b a' : ℕ) → IsInside a' c → IsInside a' (written c a b)
unfolding written
IsInside-written c a b a' h = rw (length-set c.bytes (a - c.sh_addr) (b % 256)) h

updateb-written :
    (a b : ℕ) (s : State)
    → s.section.bss ≡ false
    → IsInside a s.section
    → codegen_updateb a b s ≡ some (record s { section = written s.section a b })
unfolding codegen_updateb written
updateb-written a b s e h = ground arith

-- two bytes in a row
written_word : Section → ℕ → ℕ → ℕ → Section
written_word c a l h = written (written c a l) (suc a) h

updatew-written :
    (a w : ℕ) (s : State)
    → s.section.bss ≡ false
    → IsInside a s.section
    → IsInside (suc a) s.section
    → codegen_updatew a w s
      ≡ some (record s { section = written_word s.section a (if w == 0 then 0 else 1) (w / 256) })
unfolding codegen_updatew written written_word
updatew-written a w s e h k =
    ground
      (arith, length-set s.section.bytes (a - s.section.sh_addr) ((if w == 0 then 0 else 1) % 256))

-- In a section that holds bytes, a byte that codegen_updateb stores at an address inside is read
-- back by codegen_getb, modulo 256, and every other address reads as before.
pub codegen_getb-updateb :
    (a b a' : ℕ) (s : State)
    → s.section.bss ≡ false
    → IsInside a s.section
    → (s' : State) × (codegen_updateb a b s ≡ some s')
      × (codegen_getb a s' ≡ some (b % 256))
      × ((a' ≡ a) ⊎ (codegen_getb a' s' ≡ codegen_getb a' s))
      × (globals s' ≡ globals s)
unfolding codegen_updateb codegen_getb written
codegen_getb-updateb a b a' s e h = (
  record s { section = written s.section a b },
  updateb-written a b s e h,
  rw e (read_byte-written s.section a b h),
  elim (Bool-cases (a' == a)) [
    | inl k ↦ inl (ground (arith, k))
    | inr k ↦ inr (rw e (read_byte-written_other s.section a b a' h (ground (arith, k))))
  ],
  refl,
)

pub getw-read :
    (a l h : ℕ) (s : State)
    → s.section.bss ≡ false
    → read_byte s.section a ≡ some l
    → read_byte s.section (suc a) ≡ some h
    → codegen_getw a s ≡ some (l + h * 256)
unfolding codegen_getw
getw-read a l h s e p q = ground arith

-- codegen_updatew at two addresses inside stores the high byte of the word, but as the low byte
-- 0 or 1: what codegen_getw reads back is the word only if its low byte is 0 or 1.
pub codegen_getw-updatew :
    (a w : ℕ) (s : State)
    → s.section.bss ≡ false
    → IsInside a s.section
    → IsInside (suc a) s.section
    → (s' : State) × (codegen_updatew a w s ≡ some s')
      × (codegen_getw a s' ≡ some ((if w == 0 then 0 else 1) + w / 256 % 256 * 256))
unfolding written written_word
codegen_getw-updatew a w s e h k =
    let c = written s.section a (if w == 0 then 0 else 1) in
    let low = read_byte-written s.section a (if w == 0 then 0 else 1) h in
    let high =
      read_byte-written c (suc a) (w / 256)
        (IsInside-written s.section a (if w == 0 then 0 else 1) (suc a) k) in
    let kept =
      read_byte-written_other c (suc a) (w / 256) a
        (IsInside-written s.section a (if w == 0 then 0 else 1) (suc a) k) (omega arith) in
    (
      record s { section = written_word s.section a (if w == 0 then 0 else 1) (w / 256) },
      updatew-written a w s e h k,
      getw-read a _ _ _ e (kept ∙ low) high ∙ ground arith,
    )
