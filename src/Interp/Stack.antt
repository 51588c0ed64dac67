-- ===== src/Interp/Stack.antt =====
-- The operations of an expression and the stack of values: stack_push to stack_rightshift of
-- as-c/src/interp.c. The stack is a list with its top first.
use tools.Base.{ℕ, zero, suc, List, [], ◌∷◌, Option, none, some}
use tools.Interp.Object.{
  Object, object_add, object_sub, object_mul, object_div, object_idiv, object_mod, object_and,
  object_or, object_not, object_neg, object_lowbyte, object_highbyte, object_bankbyte, object_equal,
  object_notequal, object_greaterthan, object_greaterthanequal, object_lessthanequal,
  object_leftshift, object_rightshift,
}

-- the operations that pop two values and push one, and those that pop one and push one
pub data BinaryOp : Type 0 where
  op_add op_sub op_mul op_div op_idiv op_mod op_and op_or op_equal op_notequal : BinaryOp
  op_greaterthan op_greaterthanequal op_lessthan op_lessthanequal : BinaryOp
  op_leftshift op_rightshift : BinaryOp

pub data UnaryOp : Type 0 where
  op_neg op_not op_lowbyte op_highbyte op_bankbyte : UnaryOp

-- the value that is pushed for the left and the right operand; op_lessthan calls
-- object_lessthanequal
unfoldable pub combine : BinaryOp → Object → Object → Option Object
combine op_add l r = some (object_add l r)
combine op_sub l r = some (object_sub l r)
combine op_mul l r = some (object_mul l r)
combine op_div l r = object_div l r
combine op_idiv l r = object_idiv l r
combine op_mod l r = object_mod l r
combine op_and l r = some (object_and l r)
combine op_or l r = some (object_or l r)
combine op_equal l r = object_equal l r
combine op_notequal l r = some (object_notequal l r)
combine op_greaterthan l r = some (object_greaterthan l r)
combine op_greaterthanequal l r = some (object_greaterthanequal l r)
combine op_lessthan l r = some (object_lessthanequal l r)
combine op_lessthanequal l r = some (object_lessthanequal l r)
combine op_leftshift l r = object_leftshift l r
combine op_rightshift l r = object_rightshift l r

unfoldable pub change : UnaryOp → Object → Object
change op_neg l = object_neg l
change op_not l = object_not l
change op_lowbyte l = object_lowbyte l
change op_highbyte l = object_highbyte l
change op_bankbyte l = object_bankbyte l

-- A division that traps is `none`.
abbrev pub push_value : Option Object → List Object → Option (List Object)
push_value none st = none
push_value (some v) st = some (v ∷ st)

-- The right operand is popped first. A pop from the empty stack reads in front of the array.
unfoldable pub stack_binary : BinaryOp → List Object → Option (List Object)
stack_binary op [] = none
stack_binary op (r ∷ []) = none
stack_binary op (r ∷ l ∷ st) = push_value (combine op l r) st

unfoldable pub stack_unary : UnaryOp → List Object → Option (List Object)
stack_unary op [] = none
stack_unary op (l ∷ st) = some (change op l ∷ st)

unfoldable pub stack_delete : ℕ → List Object → Option (List Object)
stack_delete zero st = some st
stack_delete (suc n) [] = none
stack_delete (suc n) (v ∷ st) = stack_delete n st
