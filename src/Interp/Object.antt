-- ===== src/Interp/Object.antt =====
-- The values of as-c/src/value.c and the operations on them.
use Prim.Native.Nat.{bit_and, bit_or}
use tools.Base.{
  ℕ, zero, suc, ◌/◌, ◌%◌, ◌&&◌, Bool, true, false, not, List, [], ◌∷◌, Option, none, some, ◌==◌,
  if◌then◌else◌,
}
use tools.Interp.Long.{
  long_neg, long_add, long_sub, long_mul, long_div, long_rem, shift_left, shift_right, long_lt,
  long_le, truth,
}

-- the types that value_init makes, told apart by their pointers
pub data ValueType : Type 0 where
  byte_type bool_type char_type int_type real_type set_type nil_type no_type : ValueType
  string_type proc_type mod_type map_type macro_type : ValueType

-- int_val holds the bits of the union, also where the value is no integer; `text` is what
-- string_val points to, without the 0 behind it.
pub record Object : Type 0 where
  pub type : ValueType
  pub is_macro : Bool
  pub addr : ℕ
  pub int_val : ℕ
  pub text : List ℕ

abbrev pub is_int : ValueType → Bool
is_int int_type = true
is_int _ = false

abbrev pub is_string : ValueType → Bool
is_string string_type = true
is_string _ = false

abbrev pub is_proc : ValueType → Bool
is_proc proc_type = true
is_proc _ = false

-- object_new(Const, typeInt) with its int_val
abbrev pub int_object : ℕ → Object
int_object n = record { type = int_type; is_macro = false; addr = 0; int_val = n; text = [] }

-- object_new(Const, typeString) with its string_val, an address that the union shares with int_val,
-- and the text at that address
abbrev pub string_object : ℕ → List ℕ → Object
string_object pointer cs = record {
  type = string_type;
  is_macro = false;
  addr = 0;
  int_val = pointer;
  text = cs;
}

-- object_new(Const, typeReal) with the bits of its real_val
abbrev pub real_object : ℕ → Object
real_object bits = record {
  type = real_type;
  is_macro = false;
  addr = 0;
  int_val = bits;
  text = [];
}

unfoldable pub object_add : Object → Object → Object
object_add l r = int_object (long_add l.int_val r.int_val)

unfoldable pub object_sub : Object → Object → Object
object_sub l r = int_object (long_sub l.int_val r.int_val)

unfoldable pub object_mul : Object → Object → Object
object_mul l r = int_object (long_mul l.int_val r.int_val)

abbrev pub new_int : Option ℕ → Option Object
new_int none = none
new_int (some n) = some (int_object n)

unfoldable pub object_div : Object → Object → Option Object
object_div l r = new_int (long_div l.int_val r.int_val)

unfoldable pub object_idiv : Object → Object → Option Object
object_idiv l r = new_int (long_div l.int_val r.int_val)

unfoldable pub object_mod : Object → Object → Option Object
object_mod l r = new_int (long_rem l.int_val r.int_val)

unfoldable pub object_and : Object → Object → Object
object_and l r = int_object (bit_and l.int_val r.int_val)

unfoldable pub object_or : Object → Object → Object
object_or l r = int_object (bit_or l.int_val r.int_val)

unfoldable pub object_not : Object → Object
object_not l = int_object (truth (l.int_val == 0))

unfoldable pub object_neg : Object → Object
object_neg l = int_object (long_neg l.int_val)

unfoldable pub object_lowbyte : Object → Object
object_lowbyte l = int_object (l.int_val % 256)

unfoldable pub object_highbyte : Object → Object
object_highbyte l = int_object (l.int_val / 256 % 256)

unfoldable pub object_bankbyte : Object → Object
object_bankbyte l = int_object (l.int_val / 0x1_0000 % 256)

-- `strncmp(a, b, n) == 0`
abbrev pub same_start : ℕ → List ℕ → List ℕ → Bool
same_start zero a b = true
same_start (suc n) [] [] = true
same_start (suc n) [] (y ∷ b) = false
same_start (suc n) (x ∷ a) [] = false
same_start (suc n) (x ∷ a) (y ∷ b) = (x == y) && same_start n a b

-- Behind a string, a right operand of another type holds no address of a text. A left operand that
-- is neither a number nor a string is equal to nothing: the new int_val stays 0.
unfoldable pub object_equal : Object → Object → Option Object
object_equal l r =
    if is_int l.type
    then some (int_object (truth (l.int_val == r.int_val)))
    else if is_string l.type
    then (if is_string r.type
        then some (int_object (truth (same_start 20 l.text r.text)))
        else none)
    else some (int_object 0)

unfoldable pub object_notequal : Object → Object → Object
object_notequal l r = int_object (truth (not (l.int_val == r.int_val)))

unfoldable pub object_greaterthan : Object → Object → Object
object_greaterthan l r = int_object (truth (long_lt r.int_val l.int_val))

unfoldable pub object_greaterthanequal : Object → Object → Object
object_greaterthanequal l r = int_object (truth (long_le r.int_val l.int_val))

unfoldable pub object_lessthan : Object → Object → Object
object_lessthan l r = int_object (truth (long_lt l.int_val r.int_val))

unfoldable pub object_lessthanequal : Object → Object → Object
object_lessthanequal l r = int_object (truth (long_le l.int_val r.int_val))

unfoldable pub object_leftshift : Object → Object → Option Object
object_leftshift l r = new_int (shift_left l.int_val r.int_val)

unfoldable pub object_rightshift : Object → Object → Option Object
object_rightshift l r = new_int (shift_right l.int_val r.int_val)
