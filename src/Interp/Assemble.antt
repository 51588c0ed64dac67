-- ===== src/Interp/Assemble.antt =====
-- Lines of the program from their operations to the bytes in the section.
use tools.Base.{
  ℕ, suc, ◌≡◌, refl, sym, ap, subst, ◌∙◌, true, Bool, List, [], ◌∷◌, ◌++◌, append_assoc, Option,
  some, ◌>>=◌, bind_some, arith, length,
}
use tools.Codegen.State.{State}
use tools.Codegen.Layout.{Emits}
use tools.Interp.Object.{Object}
use tools.Interp.Stack.{stack_delete}
use tools.Interp.Emit.{Target, deleting, each_value, byte_value, stack_byte}
use tools.Interp.Run.{
  Operation, op_byte, Interp, with_codegen, keep_exec, under_exec, execute, step, interp_interp,
}
use tools.Interp.Postfix.{Expr, value, postfix, pushed, interp_interp-postfix}
use tools.Interp.Values.{push_all, stack_delete-push_all, listing, each_value-push_all}
use tools.Interp.Data.{byte_listing, byte_value-listing}

-- the expressions of a list, as parse_list compiles them
abbrev pub postfix_all : List Expr → List Operation
postfix_all [] = []
postfix_all (e ∷ es) = postfix e ++ postfix_all es

abbrev pub values : List Expr → Option (List Object)
values [] = some []
values (e ∷ es) = value e >>= λ v. values es >>= λ vs. some (v ∷ vs)

abbrev pub flag : List Object → Interp → Bool
flag [] s = s.last_exec
flag (v ∷ vs) s = s.exec

abbrev pub stacked : List Object → Interp → Interp
stacked vs s = record s { stack = push_all vs s.stack; last_exec = flag vs s }

stacked-pushed :
    (vs : List Object) (v : Object) (s : Interp) → stacked vs (pushed s v) ≡ stacked (v ∷ vs) s
stacked-pushed [] v s = refl
stacked-pushed (w ∷ vs) v s = refl

interp_interp-postfix_all :
    (t : Target) (es : List Expr) (vs : List Object) (ops : List Operation) (s : Interp)
    → s.exec ≡ true
    → values es ≡ some vs
    → interp_interp t (postfix_all es ++ ops) s ≡ interp_interp t ops (stacked vs s)
interp_interp-postfix_all t [] vs ops s h e =
    let same : [] ≡ vs = cc in ap (λ xs. interp_interp t ops (stacked xs s)) same
interp_interp-postfix_all t (x ∷ es) vs ops s h e =
    let (v, k, k') = bind_some (value x) _ e in
    let (ws, j, j') = bind_some (values es) _ k' in
    let same : v ∷ ws ≡ vs = cc in
    ap (λ xs. interp_interp t xs s) (append_assoc (postfix x) (postfix_all es) ops)
    ∙ interp_interp-postfix t x (postfix_all es ++ ops) s h
    ∙ ap (λ o. o >>= λ y. interp_interp t (postfix_all es ++ ops) (pushed s y)) k
    ∙ interp_interp-postfix_all t es ws ops (pushed s v) h j
    ∙ ap (interp_interp t ops) (stacked-pushed ws v s)
    ∙ ap (λ xs. interp_interp t ops (stacked xs s)) same

-- what a line leaves: the bytes, and nothing else but the flag
abbrev pub emitted : State → Interp → Interp
emitted c s = record s { codegen = c; last_exec = s.exec }

-- The operations have the effect of emitting the bytes.
abbrev pub Assembles : Target → List Operation → Interp → List ℕ → Type 0
Assembles t ops s bs =
    (c : State) × ((rest : List Operation)
      → interp_interp t (ops ++ rest) s ≡ interp_interp t rest (emitted c s))
    × Emits s.codegen c bs

module _ (t : Target) (es : List Expr) (vs : List Object) (s : Interp) (h : s.exec ≡ true)
    (e : values es ≡ some vs) where
  pub line :
      (op : Operation) (c : State) (bs : List ℕ)
      → step t op (stacked vs s) ≡ some (emitted c s)
      → Emits s.codegen c bs
      → Assembles t (postfix_all es ++ op ∷ []) s bs
  unfolding interp_interp
  line op c bs r emits = (
    c,
    λ rest.
        ap (λ xs. interp_interp t xs s) (append_assoc (postfix_all es) (op ∷ []) rest)
        ∙ interp_interp-postfix_all t es vs (op ∷ rest) s h e
        ∙ ap (λ o. o >>= interp_interp t rest) r,
    emits,
  )

pub length-values :
    (es : List Expr) (vs : List Object) → values es ≡ some vs → length vs ≡ length es
length-values [] vs e = let same : [] ≡ vs = cc in ap length (sym same)
length-values (x ∷ es) vs e =
    let (v, k, k') = bind_some (value x) _ e in
    let (ws, j, j') = bind_some (values es) _ k' in
    let same : v ∷ ws ≡ vs = cc in ap length (sym same) ∙ ap (λ n. suc n) (length-values es ws j)

pub deleting-push_all :
    (vs st : List Object) (c : State)
    → deleting (length vs) (push_all vs st) (some c) ≡ some (st, c)
unfolding stack_delete
deleting-push_all vs st c =
    let e : stack_delete (length vs) (push_all vs st) ≡ some st =
      ground (arith, stack_delete-push_all vs st 0) in
    rw e refl

module _ (t : Target) (vs : List Object) (s : Interp) (h : s.exec ≡ true) where
  pub executed :
      (c : State) (r : Option (List Object × State))
      → r ≡ some (s.stack, c)
      → keep_exec (with_codegen (stacked vs s) r) ≡ some (emitted c s)
  executed c r e = ap (λ o. keep_exec (with_codegen (stacked vs s) o)) e

  step-op_byte :
      (c : State)
      → each_value (byte_value t) (length vs) (push_all vs s.stack) s.codegen ≡ some c
      → step t (op_byte (length vs)) (stacked vs s) ≡ some (emitted c s)
  unfolding step execute stack_byte
  step-op_byte c e =
      ap (λ b. under_exec b t (op_byte (length vs)) (stacked vs s)) h
      ∙ executed c _
          (ap (deleting (length vs) (push_all vs s.stack)) e ∙ deleting-push_all vs s.stack c)

-- Where operations are executed, expressions with the values `vs` followed by OpByte emit the
-- bytes that the values stand for, in order: the low byte of a number, all bytes of a string, and
-- the integer part of a real. All else but last_exec is as before, the stack included.
pub stack_byte-Assembles :
    (t : Target) (es : List Expr) (vs : List Object) (s : Interp) (bs : List ℕ)
    → s.exec ≡ true
    → values es ≡ some vs
    → listing (byte_listing t) vs ≡ some bs
    → Assembles t (postfix_all es ++ op_byte (length es) ∷ []) s bs
stack_byte-Assembles t es vs s bs h e l =
    let (c, r, emits) =
      each_value-push_all (byte_value t) (byte_listing t) (byte_value-listing t) vs s.stack
        s.codegen bs l in
    subst (λ n. Assembles t (postfix_all es ++ op_byte n ∷ []) s bs) (length-values es vs e)
      (line t es vs s h e (op_byte (length vs)) c bs (step-op_byte t vs s h c r) emits)
