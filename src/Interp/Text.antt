-- ===== src/Interp/Text.antt =====
-- emit_text of as-c/src/interp.c: strings with escapes, with a length, a final 0 or a marked end.
use Prim.Native.Nat.{bit_or}
use tools.Base.{
  ℕ, zero, suc, ◌+◌, ◌/◌, Bool, true, false, ◌&&◌, List, [], ◌∷◌, Option, none, some, ◌==◌,
  if◌then◌else◌, ◌>>=◌, length,
}
use tools.Codegen.State.{State}
use tools.Codegen.Emit.{codegen_byte}
use tools.Interp.Long.{long_lt}
use tools.Interp.Object.{Object, ValueType, int_type, string_type}
use tools.Interp.Emit.{each_value, read_stack, deleting, to_int}

-- OpText, OpTextBit7, OpTextLen and OpTextZero
pub data TextOp : Type 0 where
  op_text op_text_bit7 op_text_len op_text_zero : TextOp

abbrev pub is_bit7 : TextOp → Bool
is_bit7 op_text_bit7 = true
is_bit7 _ = false

-- the character for the one behind a backslash; `\x` and unknown ones leave the backslash
unfoldable pub escape : ℕ → ℕ
escape c =
    if c == 0x6e
    then 0x0a
    else if c == 0x74
    then 0x09
    else if c == 0x62
    then 0x08
    else if c == 0x72
    then 0x0d
    else if c == 0x61
    then 0x07
    else if c == 0x27
    then 0x27
    else if c == 0x22
    then 0x22
    else if c == 0x66
    then 0x0c
    else if c == 0x76
    then 0x0b
    else if c == 0x30
    then 0x00
    else 0x5c

abbrev pub is_end : List ℕ → Bool
is_end [] = true
is_end _ = false

-- the byte of `c` before the characters `cs`; `mark` is OpTextBit7 in the last value
abbrev pub marked : Bool → ℕ → List ℕ → ℕ
marked mark c cs = if mark && is_end cs then bit_or c 0x80 else c

-- The Boolean tells that a backslash stands in front. Behind one at the end of the string the
-- source reads past its 0.
unfoldable pub emit_string : Bool → Bool → List ℕ → State → Option State
emit_string mark false [] s = some s
emit_string mark true [] s = none
emit_string mark false (c ∷ cs) s =
    emit_string mark (c == 0x5c) cs (if c == 0x5c then s else codegen_byte (marked mark c cs) s)
emit_string mark true (c ∷ cs) s =
    emit_string mark false cs (codegen_byte (marked mark (escape c) cs) s)

-- a number in one byte, or in two with the high one first
unfoldable pub emit_number : ℕ → State → State
emit_number n s =
    codegen_byte (to_int n) (if long_lt 0xff n then codegen_byte (to_int (n / 256)) s else s)

abbrev pub text_by_type : TextOp → ℕ → Object → State → ValueType → Option State
text_by_type type i v s int_type = some (emit_number v.int_val s)
text_by_type type i v s string_type = emit_string (is_bit7 type && (i == 1)) false v.text s
text_by_type type i v s _ = some s

unfoldable pub text_value : TextOp → ℕ → Object → State → Option State
text_value type i v s = text_by_type type i v s v.type

-- the length that is counted for a value, before escapes: 0 for a number of one byte
unfoldable pub counted : Object → ℕ
counted v = by_type v.type
  where
    by_type : ValueType → ℕ
    by_type int_type = if long_lt 0xff v.int_val then 2 else 0
    by_type string_type = length v.text
    by_type _ = 0

unfoldable pub text_length : ℕ → List Object → Option ℕ
text_length zero st = some 0
text_length (suc i) st =
    read_stack (suc i) st >>= λ v. text_length i st >>= λ n. some (counted v + n)

abbrev pub emit_length : TextOp → ℕ → List Object → State → Option State
emit_length op_text_len n st s = text_length n st >>= λ l. some (codegen_byte (to_int l) s)
emit_length _ n st s = some s

abbrev pub emit_zero : TextOp → State → State
emit_zero op_text_zero s = codegen_byte 0 s
emit_zero _ s = s

-- the calls of as_error, one for each value of another type under OpTextLen
abbrev pub has_length : ValueType → Bool
has_length int_type = true
has_length string_type = true
has_length _ = false

unfoldable pub length_errors : ℕ → List Object → Option ℕ
length_errors zero st = some 0
length_errors (suc i) st = read_stack (suc i) st >>= λ v.
    length_errors i st >>= λ n. some (if has_length v.type then n else n + 1)

abbrev pub text_errors : TextOp → ℕ → List Object → Option ℕ
text_errors op_text_len n st = length_errors n st
text_errors _ n st = some 0

unfoldable pub emit_text : TextOp → ℕ → List Object → State → Option (List Object × State)
emit_text type n st s = deleting n st (
    emit_length type n st s >>= λ s'.
    each_value (text_value type) n st s' >>= λ s''. some (emit_zero type s''))
