-- ===== src/Interp/Run.antt =====
-- interp_interp of as-c/src/interp.c: the operations in order, under the flags of the enclosing
-- if and else branches.
use tools.Base.{
  ℕ, ◌+◌, Bool, true, false, not, List, [], ◌∷◌, Option, none, some, ltb, ◌==◌, if◌then◌else◌,
  ◌>>=◌, length,
}
use tools.Cpu.{Instr}
use tools.Codegen.State.{State}
use tools.Interp.Object.{
  Object, ValueType, byte_type, bool_type, char_type, int_type, set_type, real_type, string_type,
}
use tools.Interp.Stack.{BinaryOp, UnaryOp, stack_binary, stack_unary, stack_delete}
use tools.Interp.Emit.{Target, emit_instr, stack_byte, stack_word, stack_fill}
use tools.Interp.Text.{TextOp, emit_text, text_errors}

-- The operations that need no symbol, macro or listing, with what their value tells: the counts
-- are those of parse_list. `op_fill` is OpFillByte, OpFillWord and OpFillLong, `op_nothing` is
-- OpConCat, OpLong, OpFloat and OpDouble, whose cases are empty. OpJump, which would go on behind
-- the 101st operation and which nothing adds, is left out.
pub data Operation : Type 0 where
  op_push : Object → Operation
  op_binary : BinaryOp → Operation
  op_unary : UnaryOp → Operation
  op_emit : Instr → Operation
  op_byte op_word op_fill op_message : ℕ → Operation
  op_texts : TextOp → ℕ → Operation
  op_pop op_if_begin op_else_begin op_elseif_begin op_scope_end op_error_if op_nothing : Operation

-- `exec` is `exec[exec_level]`, `outer` are the flags below it, the nearest first; `pass` is
-- what pass() returns, 0 in the last one.
pub record Interp : Type 0 where
  pub codegen : State
  pub stack : List Object
  pub exec : Bool
  pub outer : List Bool
  pub last_exec : Bool
  pub pass : ℕ
  pub error_count : ℕ

-- the test of stack_if
unfoldable pub is_true : Target → Object → Bool
is_true t v = by_type v.type
  where
    by_type : ValueType → Bool
    by_type byte_type = not (v.int_val == 0)
    by_type bool_type = not (v.int_val == 0)
    by_type char_type = not (v.int_val == 0)
    by_type int_type = not (v.int_val == 0)
    by_type set_type = not (v.int_val == 0)
    by_type real_type = not (t.real_is_zero v.int_val)
    by_type string_type = true
    by_type _ = false

abbrev pub stack_if : Target → List Object → Option (Bool × List Object)
stack_if t [] = none
stack_if t (v ∷ st) = some (is_true t v, st)

-- `exec_level++; exec[exec_level] = flag`, with 16 flags
unfoldable pub begin : Bool → Interp → Option Interp
begin flag s =
    if ltb (length s.outer) 15
    then some (record s { exec = flag; outer = s.exec ∷ s.outer })
    else none

abbrev pub begin_if : Interp → Option (Bool × List Object) → Option Interp
begin_if s none = none
begin_if s (some (flag, st)) = begin flag (record s { stack = st })

-- Only the last pass takes the condition from the stack.
abbrev pub error_if : Interp → Option (Bool × List Object) → Option Interp
error_if s none = none
error_if s (some (flag, st)) =
    some (record s { stack = st; error_count = if flag then s.error_count + 1 else s.error_count })

unfoldable pub stack_error_if : Target → Interp → Option Interp
stack_error_if t s = if s.pass == 0 then error_if s (stack_if t s.stack) else some s

abbrev pub with_stack : Interp → Option (List Object) → Option Interp
with_stack s none = none
with_stack s (some st) = some (record s { stack = st })

abbrev pub with_codegen : Interp → Option (List Object × State) → Option Interp
with_codegen s none = none
with_codegen s (some (st, c)) = some (record s { stack = st; codegen = c })

-- the case of the switch
unfoldable pub execute : Target → Operation → Interp → Option Interp
execute t (op_push v) s = some (record s { stack = v ∷ s.stack })
execute t (op_binary op) s = with_stack s (stack_binary op s.stack)
execute t (op_unary op) s = with_stack s (stack_unary op s.stack)
execute t (op_emit instr) s = with_codegen s (emit_instr t instr s.stack s.codegen)
execute t (op_byte n) s = with_codegen s (stack_byte t n s.stack s.codegen)
execute t (op_word n) s = with_codegen s (stack_word n s.stack s.codegen)
execute t (op_fill n) s = with_codegen s (stack_fill n s.stack s.codegen)
execute t (op_message n) s = with_stack s (stack_delete n s.stack)
execute t (op_texts type n) s = text_errors type n s.stack >>= λ errors.
    with_codegen (record s { error_count = s.error_count + errors })
      (emit_text type n s.stack s.codegen)
execute t op_pop s = with_stack s (stack_delete 1 s.stack)
execute t op_if_begin s = begin_if s (stack_if t s.stack)
execute t op_else_begin s = begin (not s.last_exec) s
execute t op_elseif_begin s = begin_if s (stack_if t s.stack)
execute t op_scope_end s = some s
execute t op_error_if s = stack_error_if t s
execute t op_nothing s = some s

abbrev pub leave : Bool → List Bool → Interp → Interp
leave flag [] s = s
leave flag (b ∷ bs) s = record s { exec = b; outer = bs; last_exec = flag }

-- a scope's end at any level of execution
unfoldable pub scope_end : Interp → Interp
scope_end s = leave s.exec s.outer s

abbrev pub keep_exec : Option Interp → Option Interp
keep_exec none = none
keep_exec (some s) = some (record s { last_exec = s.exec })

abbrev pub under_exec : Bool → Target → Operation → Interp → Option Interp
under_exec true t op s = keep_exec (execute t op s)
under_exec false t op s = some s

-- the body of the loop
unfoldable pub step : Target → Operation → Interp → Option Interp
step t op_scope_end s = some (scope_end s)
step t op s = under_exec s.exec t op s

unfoldable pub interp_interp : Target → List Operation → Interp → Option Interp
interp_interp t [] s = some s
interp_interp t (op ∷ ops) s = step t op s >>= λ s'. interp_interp t ops s'
