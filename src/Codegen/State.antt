-- ===== src/Codegen/State.antt =====
-- The global state of shared/src/codegen.c, and the section that it writes to.
use tools.Base.{
  ℕ, suc, ◌-◌, ◌/◌, ◌%◌, ◌+◌, ◌*◌, Bool, false, List, [], Option, none, some, ltb, ◌==◌,
  if◌then◌else◌, length, get_elem?, set, ◌>>=◌,
}
use tools.Cpu.{OpCode, AddrMode, Machine}

-- What is printed: the calls of as_gen_error and as_gen_warn, with the values in the message. A
-- branch out of range goes from the first to the second address; `or` prints both, obitzr their
-- distance too, orl and obitar none.
pub data Diagnostic : Type 0 where
  branch_out_of_range : ℕ → ℕ → Diagnostic
  not_supported : Machine → OpCode → AddrMode → Diagnostic
  promoted demoted : ℕ → Diagnostic

-- `data` is the contents of the buffer, sh_size its length.
pub record Section : Type 0 where
  pub bss : Bool
  pub sh_addr : ℕ
  pub bytes : List ℕ

pub record State : Type 0 where
  pub section : Section
  pub addr : ℕ
  pub longa : Bool
  pub longi : Bool
  -- the first relocC entries of the table
  pub reloc : List ℕ
  pub current_pass : ℕ
  pub diagnostics : List Diagnostic

-- the part of the state that the instruction tables read
pub record Globals : Type 0 where
  pub addr : ℕ
  pub longa : Bool
  pub longi : Bool

abbrev pub globals : State → Globals
globals s = record { addr = s.addr; longa = s.longa; longi = s.longi }

abbrev pub max_reloc : ℕ
max_reloc = 1024

-- The part of codegen_init that sets these globals: the text section of the new ELF file starts at
-- the entry point and is empty.
unfoldable pub codegen_init : ℕ → State → State
codegen_init entry s = record s {
  section = record { bss = false; sh_addr = entry; bytes = [] };
  addr = entry;
  longa = false;
  longi = false;
}

abbrev pub codegen_here : State → ℕ
codegen_here s = s.addr

unfoldable pub codegen_addr : ℕ → State → State
codegen_addr a s = record s { section = record (s.section) { sh_addr = a }; addr = a; reloc = [] }

abbrev pub codegen_longa : State → Bool
codegen_longa s = s.longa

abbrev pub codegen_longi : State → Bool
codegen_longi s = s.longi

unfoldable pub codegen_setlonga : Bool → State → State
codegen_setlonga l s = record s { longa = l }

unfoldable pub codegen_setlongi : Bool → State → State
codegen_setlongi l s = record s { longi = l }

-- `section->data[i]` with `i = addr - sh_addr`; `none` is an access outside the buffer.
abbrev pub read_byte : Section → ℕ → Option ℕ
read_byte c a = if ltb a c.sh_addr then none else get_elem? c.bytes (a - c.sh_addr)

abbrev pub write_byte : Section → ℕ → ℕ → Option Section
write_byte c a b =
    if ltb a c.sh_addr
    then none
    else if ltb (a - c.sh_addr) (length c.bytes)
    then some (record c { bytes = set c.bytes (a - c.sh_addr) (b % 256) })
    else none

unfoldable pub codegen_getb : ℕ → State → Option ℕ
codegen_getb a s = if s.section.bss then some 0 else read_byte s.section a

unfoldable pub codegen_getw : ℕ → State → Option ℕ
codegen_getw a s =
    if s.section.bss
    then some 0
    else do l ← read_byte s.section a; h ← read_byte s.section (suc a); some (l + h * 256)

unfoldable pub codegen_updateb : ℕ → ℕ → State → Option State
codegen_updateb a b s =
    if s.section.bss
    then some s
    else do c ← write_byte s.section a b; some (record s { section = c })

-- The low byte is `w && 0xff`, a logical and: 1 unless `w` is 0.
unfoldable pub codegen_updatew : ℕ → ℕ → State → Option State
codegen_updatew a w s = if s.section.bss then some s else do
  c ← write_byte s.section a (if w == 0 then 0 else 1)
  c' ← write_byte c (suc a) (w / 256)
  some (record s { section = c' })
