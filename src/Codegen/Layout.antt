-- ===== src/Codegen/Layout.antt =====
-- What an emission does to the state, over and above its diagnostics and relocations.
use tools.Base.{
  ℕ, ◌+◌, ◌%◌, ◌<◌, ◌≡◌, ◌⊎◌, inl, inr, true, false, Bool-cases, List, [], ◌∷◌, ◌++◌, append_assoc,
  append-nil, ◌∙◌, arith, if◌then◌else◌, length, length-append, All, All-append,
}
use tools.Codegen.State.{State, Diagnostic, globals}
use tools.Codegen.Emit.{o, report}
use tools.Codegen.Call.{add_reloc}

abbrev pub IsByte : ℕ → Type 0
IsByte b = b < 256

-- From `s` to `t` the bytes `bs` were emitted: they stand behind the section's contents, unless
-- the section holds none, and the address moved by their number.
pub record Emits (s t : State) (bs : List ℕ) : Type 0 where
  pub addr : t.addr ≡ s.addr + length bs
  pub bss : t.section.bss ≡ s.section.bss
  pub sh_addr : t.section.sh_addr ≡ s.section.sh_addr
  pub bytes : t.section.bytes ≡ (if s.section.bss then s.section.bytes else s.section.bytes ++ bs)
  pub longa : t.longa ≡ s.longa
  pub longi : t.longi ≡ s.longi
  pub current_pass : t.current_pass ≡ s.current_pass
  pub are_bytes : All IsByte bs

-- A section that holds bytes ends at the address.
abbrev pub IsLaidOut : State → Type 0
IsLaidOut s =
    (s.section.bss ≡ true)
    ⊎ ((s.addr ≡ s.section.sh_addr + length s.section.bytes) × All IsByte s.section.bytes)

pub Emits-trans :
    {s t u : State} (bs cs : List ℕ) → Emits s t bs → Emits t u cs → Emits s u (bs ++ cs)
Emits-trans {s} {t} {u} bs cs h k = record {
  addr = omega (arith, h.addr, k.addr, length-append bs cs);
  bss = k.bss ∙ h.bss;
  sh_addr = k.sh_addr ∙ h.sh_addr;
  bytes = ground (arith, h.bytes, k.bytes, h.bss, append_assoc s.section.bytes bs cs);
  longa = k.longa ∙ h.longa;
  longi = k.longi ∙ h.longi;
  current_pass = k.current_pass ∙ h.current_pass;
  are_bytes = All-append IsByte bs cs h.are_bytes k.are_bytes;
}

pub Emits-refl : (s : State) → Emits s s []
Emits-refl s = ground (arith, append-nil s.section.bytes)

pub o-Emits : (b : ℕ) (s : State) → Emits s (o b s) (b % 256 ∷ [])
unfolding o
o-Emits b s = ground arith

pub report-Emits : (d : Diagnostic) (s : State) → Emits s (report d s) []
report-Emits d s = ground (arith, append-nil s.section.bytes)

pub add_reloc-Emits : (s : State) → Emits s (add_reloc s) []
unfolding add_reloc
add_reloc-Emits s = ground (arith, append-nil s.section.bytes)

pub Emits-IsLaidOut : {s t : State} (bs : List ℕ) → Emits s t bs → IsLaidOut s → IsLaidOut t
Emits-IsLaidOut bs h (inl bss) = inl (h.bss ∙ bss)
Emits-IsLaidOut {s} {t} bs h (inr (here, small)) = elim (Bool-cases s.section.bss) [
  | inl bss ↦ inl (h.bss ∙ bss)
  | inr holds_bytes ↦
      let grown : t.section.bytes ≡ s.section.bytes ++ bs = rw holds_bytes at h.bytes in
      inr (
        rw grown (omega (arith, here, h.addr, h.sh_addr, length-append s.section.bytes bs)),
        rw grown (All-append IsByte s.section.bytes bs small h.are_bytes),
      )
]

pub Emits-globals :
    {s s' t t' : State} (bs : List ℕ)
    → Emits s t bs
    → Emits s' t' bs
    → globals s ≡ globals s'
    → globals t ≡ globals t'
Emits-globals bs h k e = ground (arith, h.addr, k.addr, h.longa, k.longa, h.longi, k.longi, e)

-- a section that holds bytes grows by what is emitted
pub Emits-grown :
    {s t : State} (bs : List ℕ)
    → Emits s t bs
    → s.section.bss ≡ false
    → t.section.bytes ≡ s.section.bytes ++ bs
Emits-grown bs h e = rw e at h.bytes
