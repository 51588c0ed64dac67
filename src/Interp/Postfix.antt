-- ===== src/Interp/Postfix.antt =====
-- Expressions in postfix order against their value.
use tools.Base.{
  bind_assoc, bind_ext, ◌≡◌, refl, true, List, [], ◌∷◌, ◌++◌, append_assoc, Option, none, some,
  ◌>>=◌, ◌∙◌, sym, ap,
}
use tools.Interp.Object.{Object}
use tools.Interp.Stack.{BinaryOp, UnaryOp, push_value, combine, change, stack_binary, stack_unary}
use tools.Interp.Emit.{Target}
use tools.Interp.Run.{
  Operation, op_push, op_binary, op_unary, Interp, under_exec, keep_exec, with_stack, step, execute,
  interp_interp,
}

pub data Expr : Type 0 where
  literal : Object → Expr
  unary : UnaryOp → Expr → Expr
  binary : BinaryOp → Expr → Expr → Expr

-- the value, `none` where a division or a shift traps
abbrev pub value : Expr → Option Object
value (literal v) = some v
value (unary op e) = value e >>= λ v. some (change op v)
value (binary op e d) = value e >>= λ l. value d >>= λ r. combine op l r

abbrev pub postfix : Expr → List Operation
postfix (literal v) = op_push v ∷ []
postfix (unary op e) = postfix e ++ op_unary op ∷ []
postfix (binary op e d) = postfix e ++ postfix d ++ op_binary op ∷ []

-- the state with one more value, after an operation that was executed
abbrev pub pushed : Interp → Object → Interp
pushed s v = record s { stack = v ∷ s.stack; last_exec = s.exec }

interp_interp-push :
    (t : Target) (v : Object) (ops : List Operation) (s : Interp)
    → s.exec ≡ true
    → interp_interp t (op_push v ∷ ops) s ≡ interp_interp t ops (pushed s v)
unfolding interp_interp step execute
interp_interp-push t v ops s e = rw e refl

interp_interp-unary :
    (t : Target) (op : UnaryOp) (v : Object) (ops : List Operation) (s : Interp)
    → s.exec ≡ true
    → interp_interp t (op_unary op ∷ ops) (pushed s v)
      ≡ interp_interp t ops (pushed s (change op v))
unfolding interp_interp step execute stack_unary
interp_interp-unary t op v ops s e = rw e refl

after_combine :
    (t : Target) (ops : List Operation) (s : Interp) (l r : Object) (o : Option Object)
    → (keep_exec (with_stack (pushed (pushed s l) r) (push_value o s.stack))
        >>= interp_interp t ops)
      ≡ (o >>= λ v. interp_interp t ops (pushed s v))
after_combine t ops s l r none = refl
after_combine t ops s l r (some v) = refl

interp_interp-binary :
    (t : Target) (op : BinaryOp) (l r : Object) (ops : List Operation) (s : Interp)
    → s.exec ≡ true
    → interp_interp t (op_binary op ∷ ops) (pushed (pushed s l) r)
      ≡ (combine op l r >>= λ v. interp_interp t ops (pushed s v))
unfolding interp_interp step execute stack_binary
interp_interp-binary t op l r ops s e =
    ap (λ b. under_exec b t (op_binary op) (pushed (pushed s l) r) >>= interp_interp t ops) e
    ∙ after_combine t ops s l r (combine op l r)

-- Where operations are executed, those of an expression in postfix order push its value and
-- change nothing else but last_exec, which is true then, and if the value traps the run has no
-- result.
pub interp_interp-postfix :
    (t : Target) (e : Expr) (ops : List Operation) (s : Interp)
    → s.exec ≡ true
    → interp_interp t (postfix e ++ ops) s ≡ (value e >>= λ v. interp_interp t ops (pushed s v))
interp_interp-postfix t (literal v) ops s h = interp_interp-push t v ops s h
interp_interp-postfix t (unary op e) ops s h =
    ap (λ xs. interp_interp t xs s) (append_assoc (postfix e) (op_unary op ∷ []) ops)
    ∙ interp_interp-postfix t e (op_unary op ∷ ops) s h
    ∙ bind_ext (value e) (λ v. interp_interp-unary t op v ops s h)
    ∙ sym (bind_assoc (value e) (λ v. some (change op v)) (λ v. interp_interp t ops (pushed s v)))
interp_interp-postfix t (binary op e d) ops s h =
    let rest : Object → Option Interp = λ v. interp_interp t ops (pushed s v) in
    ap (λ xs. interp_interp t xs s)
      (append_assoc (postfix e ++ postfix d) (op_binary op ∷ []) ops
        ∙ append_assoc (postfix e) (postfix d) (op_binary op ∷ ops))
    ∙ interp_interp-postfix t e (postfix d ++ op_binary op ∷ ops) s h
    ∙ bind_ext (value e) (λ l.
      interp_interp-postfix t d (op_binary op ∷ ops) (pushed s l) h
      ∙ bind_ext (value d) (λ r. interp_interp-binary t op l r ops s h)
      ∙ sym (bind_assoc (value d) (λ r. combine op l r) rest))
    ∙ sym (bind_assoc (value e) (λ l. value d >>= λ r. combine op l r) rest)
