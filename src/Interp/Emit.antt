-- ===== src/Interp/Emit.antt =====
-- The operations of as-c/src/interp.c that emit bytes: emit_instr, emit_text, stack_byte,
-- stack_word and stack_fill.
use tools.Base.{
  ℕ, zero, suc, ◌-◌, ◌%◌, Bool, List, [], ◌∷◌, Option, none, some, ◌==◌, if◌then◌else◌, ◌>>=◌,
  int_mod, is_neg, get_elem?,
}
use tools.Cpu.{Instr, Machine}
use tools.Codegen.State.{State}
use tools.Codegen.Emit.{codegen_byte, codegen_word}
use tools.Codegen.Mode.{codegen_params}
use tools.Codegen.Gen.{codegen_gen}
use tools.Interp.Object.{Object, ValueType, string_type, real_type, is_proc, is_int}
use tools.Interp.Stack.{stack_delete}

-- What the operations need from outside: the machine in the ELF header, and of the bits of a
-- double its conversion to int, as a 32-bit pattern, and its test against 0.
pub record Target : Type 0 where
  pub machine : Machine
  pub real_int : ℕ → ℕ
  pub real_is_zero : ℕ → Bool

-- a long that is passed where an int stands
abbrev pub to_int : ℕ → ℕ
to_int n = n % int_mod

-- `stack[stack_pointer - i]`; at 0 that is the place above the top
abbrev pub read_stack : ℕ → List Object → Option Object
read_stack zero st = none
read_stack (suc i) st = get_elem? st i

-- the calls for `stack[stack_pointer - i]` from `i = n` down to 1
unfoldable pub each_value :
    (ℕ → Object → State → Option State) → ℕ → List Object → State → Option State
each_value f zero st s = some s
each_value f (suc i) st s =
    read_stack (suc i) st >>= λ v. f (suc i) v s >>= λ s'. each_value f i st s'

unfoldable pub first_operand : Object → ℕ
first_operand v =
    if is_int v.type
    then to_int v.int_val
    else if is_proc v.type
    then to_int v.addr
    else if v.is_macro
    then to_int v.int_val
    else 0

-- the values and the rest of the stack, from the number of parameters
unfoldable pub operands : ℕ → List Object → Option (ℕ × ℕ × ℕ × List Object)
operands zero st = some (0, 0, 0, st)
operands (suc n) [] = none
operands (suc zero) (v ∷ st) = some (first_operand v, 0, 0, st)
operands (suc (suc zero)) (v ∷ w ∷ st) = some (first_operand v, to_int w.int_val, 0, st)
operands (suc (suc (suc n))) (v ∷ w ∷ x ∷ st) =
    some (first_operand v, to_int w.int_val, to_int x.int_val, st)
operands (suc (suc n)) st = none

abbrev pub generate :
    Target → Instr → State → Option (ℕ × ℕ × ℕ × List Object) → Option (List Object × State)
generate t instr s none = none
generate t instr s (some (val0, val1, val2, st)) =
    some (st, codegen_gen t.machine instr val0 val1 val2 s)

unfoldable pub emit_instr : Target → Instr → List Object → State → Option (List Object × State)
emit_instr t instr st s = generate t instr s (operands (codegen_params instr.mode) st)

-- the elements of stack_delete, with the code generator's state
abbrev pub deleting : ℕ → List Object → Option State → Option (List Object × State)
deleting n st none = none
deleting n st (some s) = stack_delete n st >>= λ st'. some (st', s)

unfoldable pub emit_chars : List ℕ → State → State
emit_chars [] s = s
emit_chars (c ∷ cs) s = emit_chars cs (codegen_byte c s)

abbrev pub byte_by_type : Target → Object → State → ValueType → State
byte_by_type t v s real_type = codegen_byte (t.real_int v.int_val) s
byte_by_type t v s string_type = emit_chars v.text s
byte_by_type t v s _ = codegen_byte (to_int v.int_val) s

unfoldable pub byte_value : Target → ℕ → Object → State → Option State
byte_value t i v s = some (byte_by_type t v s v.type)

unfoldable pub stack_byte : Target → ℕ → List Object → State → Option (List Object × State)
stack_byte t n st s = deleting n st (each_value (byte_value t) n st s)

unfoldable pub word_value : ℕ → Object → State → Option State
word_value i v s = some (codegen_word (to_int v.int_val) s)

unfoldable pub stack_word : ℕ → List Object → State → Option (List Object × State)
stack_word zero st s = some (st, s)
stack_word (suc n) st s = deleting (suc n) st (each_value word_value (suc n) st s)

-- `x` counts down from `pattern` to 1 and starts again
unfoldable pub fill : ℕ → ℕ → ℕ → List Object → State → Option State
fill zero pattern x st s = some s
fill (suc i) pattern x st s = read_stack x st >>= λ v.
    fill i pattern (if x == 1 then pattern else x - 1) st (codegen_byte (to_int v.int_val) s)

-- a loop up to a negative number runs not at all
abbrev pub iterations : ℕ → ℕ
iterations n = if is_neg n then 0 else n

unfoldable pub stack_fill : ℕ → List Object → State → Option (List Object × State)
stack_fill n st s = read_stack n st >>= λ v.
    deleting n st (fill (iterations (to_int v.int_val)) (n - 1) (n - 1) st s)
