-- ===== src/Codegen/Emit.antt =====
-- The emitters of shared/src/codegen.c, from `o`, which writes one byte, to the formats of the
-- instruction sets. An argument of type `int` is its 32-bit pattern.
use Prim.Native.Nat.{bit_or}
use tools.Base.{
  ℕ, ◌+◌, ◌-◌, ◌*◌, ◌/◌, ◌%◌, Bool, ◌&&◌, ◌||◌, [], ◌∷◌, ◌++◌, ltb, leb, ◌==◌, if◌then◌else◌,
  int_mod, is_neg, sub_int,
}
use tools.Codegen.State.{State, Diagnostic, branch_out_of_range}

-- as_gen_error and as_gen_warn
abbrev pub report : Diagnostic → State → State
report d s = record s { diagnostics = s.diagnostics ++ d ∷ [] }

-- The parameter is a uint8_t: a call converts its argument.
unfoldable pub o : ℕ → State → State
o byte s =
    let c = s.section in
    record s {
      section = if c.bss then c else record c { bytes = c.bytes ++ byte % 256 ∷ [] };
      addr = s.addr + 1;
    }

unfoldable pub ob : ℕ → ℕ → State → State
ob op v s = o (v % 256) (o op s)

unfoldable pub odp : ℕ → ℕ → State → State
odp op v s = ob op v s

unfoldable pub ow : ℕ → ℕ → State → State
ow op v s = o (v / 256) (o (v % 256) (o op s))

unfoldable pub oabs : ℕ → ℕ → State → State
oabs op v s = ow op v s

unfoldable pub ol : ℕ → ℕ → State → State
ol op v s = o (v / 0x1_0000) (o (v / 256) (o (v % 256) (o op s)))

unfoldable pub olong : ℕ → ℕ → State → State
olong op v s = ol op v s

unfoldable pub om : ℕ → ℕ → Bool → State → State
om op v b s = let s' = o (v % 256) (o op s) in if b then o (v / 256) s' else s'

-- `(r > 127) || (r < -128)` and `(r > 32767) || (r < -32768)`
abbrev pub too_far : ℕ → Bool
too_far r = leb 128 r && ltb r (int_mod - 128)

abbrev pub too_far_long : ℕ → Bool
too_far_long r = leb 0x8000 r && ltb r (int_mod - 0x8000)

-- the error of a branch, which is reported only if `codegen_current_pass <= 0`
abbrev pub check_range : Bool → ℕ → State → State
check_range far v s =
    if far && (is_neg s.current_pass || s.current_pass == 0)
    then report (branch_out_of_range s.addr v) s
    else s

-- the last byte of a short branch to `v`
unfoldable pub relative : ℕ → State → State
relative v s = let r = sub_int v (s.addr + 1) in o (r % 256) (check_range (too_far r) v s)

-- `or` in the source
unfoldable pub branch : ℕ → ℕ → State → State
branch op v s = relative v (o op s)

unfoldable pub orl : ℕ → ℕ → State → State
orl op v s =
    let s' = o op s in
    let r = sub_int v (s'.addr + 2) in o (r / 256) (o (r % 256) (check_range (too_far_long r) v s'))

unfoldable pub omove : ℕ → ℕ → ℕ → State → State
omove op src dst s = o (src / 0x1_0000) (o (dst / 0x1_0000) (o op s))

unfoldable pub obita : ℕ → ℕ → ℕ → State → State
obita op mask a s = o (a / 256) (o (a % 256) (o mask (o op s)))

unfoldable pub obitar : ℕ → ℕ → ℕ → ℕ → State → State
obitar op mem mask v s = relative v (o (mem / 256) (o (mem % 256) (o mask (o op s))))

unfoldable pub oiz : ℕ → ℕ → ℕ → State → State
oiz op imm mem s = o (mem % 256) (o (imm % 256) (o op s))

unfoldable pub obitzr : ℕ → ℕ → ℕ → ℕ → State → State
obitzr op bit mem v s = relative v (o (mem % 256) (o (bit_or op (bit * 16)) s))

unfoldable pub codegen_byte : ℕ → State → State
codegen_byte b s = o (b % 256) s

unfoldable pub codegen_word : ℕ → State → State
codegen_word w s = o (w / 256) (o (w % 256) s)

unfoldable pub codegen_long : ℕ → State → State
codegen_long l s =
    o (l / 0x100_0000 % 256) (o (l / 0x1_0000 % 256) (o (l / 256 % 256) (o (l % 256) s)))
