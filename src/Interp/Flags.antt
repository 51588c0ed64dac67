-- ===== src/Interp/Flags.antt =====
-- The flags of interp_interp: which operations are executed, and which leave the flags alone.
use tools.Base.{
  ◌+◌, Bool-cases, inl, inr, ◌==◌, ◌≡◌, refl, sym, ap, subst, ◌∙◌, true, false, Bool, List, [], ◌∷◌,
  ◌++◌, Option, none, some, ◌>>=◌, bind_some, bind_assoc, bind_ext, All,
}
use tools.Codegen.State.{State}
use tools.Interp.Text.{text_errors}
use tools.Interp.Object.{Object}
use tools.Interp.Emit.{Target}
use tools.Interp.Run.{
  Operation, op_push, op_binary, op_unary, op_emit, op_byte, op_word, op_fill, op_message, op_texts,
  op_pop, op_if_begin, op_else_begin, op_elseif_begin, op_scope_end, op_error_if, op_nothing,
  Interp, stack_if, with_stack, with_codegen, error_if, stack_error_if, keep_exec, under_exec,
  execute, step, interp_interp,
}

-- the operations that leave the flags alone
abbrev pub is_flat : Operation → Bool
is_flat op_if_begin = false
is_flat op_else_begin = false
is_flat op_elseif_begin = false
is_flat op_scope_end = false
is_flat _ = true

abbrev pub is_inside : Operation → Bool
is_inside op_scope_end = false
is_inside _ = true

-- operations between the begin of a branch and its end
abbrev pub IsFlat : List Operation → Type 0
IsFlat ops = All (λ op. is_flat op ≡ true) ops

abbrev pub IsInside : List Operation → Type 0
IsInside ops = All (λ op. is_inside op ≡ true) ops

flat-inside : (op : Operation) → is_flat op ≡ true → is_inside op ≡ true
flat-inside op_if_begin h = cc
flat-inside op_else_begin h = cc
flat-inside op_elseif_begin h = cc
flat-inside op_scope_end h = cc
flat-inside _ h = refl

pub IsFlat-IsInside : (ops : List Operation) → IsFlat ops → IsInside ops
IsFlat-IsInside [] h = h
IsFlat-IsInside (op ∷ ops) (h, k) = (flat-inside op h, IsFlat-IsInside ops k)

step-inside :
    (t : Target) (op : Operation) (s : Interp)
    → is_inside op ≡ true
    → step t op s ≡ under_exec s.exec t op s
unfolding step
step-inside t op_scope_end s h = cc
step-inside t _ s h = refl

pub interp_interp-append :
    (t : Target) (ops rest : List Operation) (s : Interp)
    → interp_interp t (ops ++ rest) s ≡ (interp_interp t ops s >>= interp_interp t rest)
unfolding interp_interp
interp_interp-append t [] rest s = refl
interp_interp-append t (op ∷ ops) rest s =
    bind_ext (step t op s) (λ s'. interp_interp-append t ops rest s')
    ∙ sym (bind_assoc (step t op s) (interp_interp t ops) (interp_interp t rest))

-- Where operations are not executed, all up to the next end of a scope are skipped.
pub skipped :
    (t : Target) (ops rest : List Operation) (s : Interp)
    → s.exec ≡ false
    → IsInside ops
    → interp_interp t (ops ++ rest) s ≡ interp_interp t rest s
unfolding interp_interp
skipped t [] rest s e h = refl
skipped t (op ∷ ops) rest s e (h, k) =
    ap (λ o. o >>= interp_interp t (ops ++ rest))
      (step-inside t op s h ∙ ap (λ b. under_exec b t op s) e)
    ∙ skipped t ops rest s e k

-- the flags are those of another state
abbrev pub SameFlags : Interp → Interp → Type 0
SameFlags s s' = (s'.exec ≡ s.exec) × (s'.outer ≡ s.outer)

-- a result that holds the flags of a state
abbrev pub KeepsFlags : Interp → Option Interp → Type 0
KeepsFlags s r = (s' : Interp) → r ≡ some s' → SameFlags s s'

some-KeepsFlags : (s t : Interp) → SameFlags s t → KeepsFlags s (some t)
some-KeepsFlags s t h s' e = let same : t ≡ s' = cc in subst (SameFlags s) same h

with_stack-KeepsFlags : (s : Interp) (o : Option (List Object)) → KeepsFlags s (with_stack s o)
with_stack-KeepsFlags s none s' e = cc
with_stack-KeepsFlags s (some st) s' e = some-KeepsFlags s _ (refl, refl) s' e

with_codegen-KeepsFlags :
    (s : Interp) (o : Option (List Object × State)) → KeepsFlags s (with_codegen s o)
with_codegen-KeepsFlags s none s' e = cc
with_codegen-KeepsFlags s (some (st, c)) s' e = some-KeepsFlags s _ (refl, refl) s' e

error_if-KeepsFlags : (s : Interp) (o : Option (Bool × List Object)) → KeepsFlags s (error_if s o)
error_if-KeepsFlags s none s' e = cc
error_if-KeepsFlags s (some (b, st)) s' e = some-KeepsFlags s _ (refl, refl) s' e

stack_error_if-KeepsFlags : (t : Target) (s : Interp) → KeepsFlags s (stack_error_if t s)
unfolding stack_error_if
stack_error_if-KeepsFlags t s = elim (Bool-cases (s.pass == 0)) [
  | inl e ↦ rw e (error_if-KeepsFlags s (stack_if t s.stack))
  | inr e ↦ rw e (some-KeepsFlags s s (refl, refl))
]

execute-KeepsFlags :
    (t : Target) (op : Operation) (s : Interp) → is_flat op ≡ true → KeepsFlags s (execute t op s)
unfolding execute
execute-KeepsFlags t (op_push v) s h = some-KeepsFlags s _ (refl, refl)
execute-KeepsFlags t (op_binary op) s h = with_stack-KeepsFlags s _
execute-KeepsFlags t (op_unary op) s h = with_stack-KeepsFlags s _
execute-KeepsFlags t (op_emit instr) s h = with_codegen-KeepsFlags s _
execute-KeepsFlags t (op_byte n) s h = with_codegen-KeepsFlags s _
execute-KeepsFlags t (op_word n) s h = with_codegen-KeepsFlags s _
execute-KeepsFlags t (op_fill n) s h = with_codegen-KeepsFlags s _
execute-KeepsFlags t (op_message n) s h = with_stack-KeepsFlags s _
execute-KeepsFlags t (op_texts type n) s h = λ s' e.
    let (m, k, k') = bind_some (text_errors type n s.stack) _ e in
    with_codegen-KeepsFlags (record s { error_count = s.error_count + m }) _ s' k'
execute-KeepsFlags t op_pop s h = with_stack-KeepsFlags s _
execute-KeepsFlags t op_if_begin s h = cc
execute-KeepsFlags t op_else_begin s h = cc
execute-KeepsFlags t op_elseif_begin s h = cc
execute-KeepsFlags t op_scope_end s h = cc
execute-KeepsFlags t op_error_if s h = stack_error_if-KeepsFlags t s
execute-KeepsFlags t op_nothing s h = some-KeepsFlags s s (refl, refl)

keep_exec-KeepsFlags :
    (s : Interp) (o : Option Interp) → KeepsFlags s o → KeepsFlags s (keep_exec o)
keep_exec-KeepsFlags s none h = λ s' e. cc
keep_exec-KeepsFlags s (some s1) h = some-KeepsFlags s _ (h s1 refl)

-- Operations without branches end with the flags they start with.
pub flat-KeepsFlags :
    (t : Target) (ops : List Operation) (s : Interp)
    → s.exec ≡ true
    → IsFlat ops
    → KeepsFlags s (interp_interp t ops s)
unfolding interp_interp
flat-KeepsFlags t [] s e h = some-KeepsFlags s s (refl, refl)
flat-KeepsFlags t (op ∷ ops) s e (h, k) = λ s' r.
    let (s1, r1, r2) = bind_some (step t op s) _ r in
    let executed : keep_exec (execute t op s) ≡ some s1 =
      sym (step-inside t op s (flat-inside op h) ∙ ap (λ b. under_exec b t op s) e) ∙ r1 in
    let (x, y) = keep_exec-KeepsFlags s _ (execute-KeepsFlags t op s h) s1 executed in
    let (z, w) = flat-KeepsFlags t ops s1 (x ∙ e) k s' r2 in (z ∙ x, w ∙ y)
