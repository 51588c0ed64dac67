-- ===== src/Interp/Lines.antt =====
-- Lines of word data, text and instructions from their operations to the bytes in the section.
use tools.Base.{
  arith, ℕ, ◌+◌, ◌≡◌, refl, ap, subst, ◌∙◌, true, false, Bool, List, [], ◌∷◌, ◌++◌, Option, some,
  ◌>>=◌, length, append-nil,
}
use tools.Cpu.{Instr}
use tools.Codegen.State.{State, globals}
use tools.Codegen.Mode.{codegen_params}
use tools.Codegen.Gen.{codegen_gen}
use tools.Codegen.Layout.{Emits, Emits-refl, Emits-trans}
use tools.Codegen.MachineCode.{machine_code, codegen_gen-Emits}
use tools.Interp.Object.{Object}
use tools.Interp.Emit.{
  Target, first_operand, operands, generate, emit_instr, deleting, each_value, word_value,
  stack_word,
}
use tools.Interp.Text.{
  TextOp, op_text, op_text_bit7, op_text_zero, op_text_len, text_value, text_errors, emit_text,
  emit_zero,
}
use tools.Interp.Run.{
  op_emit, op_word, op_texts, Interp, under_exec, keep_exec, execute, step, with_codegen,
}
use tools.Interp.Postfix.{Expr, value, postfix}
use tools.Interp.Values.{push_all, listing, each_value-push_all}
use tools.Interp.Data.{word_listing, word_value-listing, codegen_byte-Emits}
use tools.Interp.Escapes.{text_listing, text_value-listing}
use tools.Interp.Assemble.{
  postfix_all, values, stacked, emitted, Assembles, line, length-values, deleting-push_all,
  executed,
}

abbrev pub ends_with_zero : TextOp → List ℕ
ends_with_zero op_text_zero = 0 ∷ []
ends_with_zero _ = []

abbrev pub is_len : TextOp → Bool
is_len op_text_len = true
is_len _ = false

stack_word-push_all :
    (vs st : List Object) (s c : State)
    → each_value word_value (length vs) (push_all vs st) s ≡ some c
    → stack_word (length vs) (push_all vs st) s ≡ some (st, c)
unfolding stack_word each_value
stack_word-push_all [] st s c e = let same : s ≡ c = cc in ap (λ x. some (st, x)) same
stack_word-push_all (v ∷ vs) st s c e =
    ap (deleting (length (v ∷ vs)) (push_all (v ∷ vs) st)) e ∙ deleting-push_all (v ∷ vs) st c

text_errors_none :
    (type : TextOp) (n : ℕ) (st : List Object)
    → is_len type ≡ false
    → text_errors type n st ≡ some 0
text_errors_none op_text_len n st e = cc
text_errors_none _ n st e = refl

module _ (t : Target) (vs : List Object) (s : Interp) (h : s.exec ≡ true) where
  text_deleted :
      (type : TextOp) (c : State)
      → each_value (text_value type) (length vs) (push_all vs s.stack) s.codegen ≡ some c
      → deleting (length vs) (push_all vs s.stack) (
          each_value (text_value type) (length vs) (push_all vs s.stack) s.codegen >>= λ c'.
          some (emit_zero type c'))
        ≡ some (s.stack, emit_zero type c)
  text_deleted type c e =
      ap (λ o. deleting (length vs) (push_all vs s.stack) (o >>= λ c'. some (emit_zero type c'))) e
      ∙ deleting-push_all vs s.stack (emit_zero type c)

  step-op_word :
      (c : State)
      → each_value word_value (length vs) (push_all vs s.stack) s.codegen ≡ some c
      → step t (op_word (length vs)) (stacked vs s) ≡ some (emitted c s)
  unfolding step execute
  step-op_word c e =
      ap (λ b. under_exec b t (op_word (length vs)) (stacked vs s)) h
      ∙ executed t vs s h c _ (stack_word-push_all vs s.stack s.codegen c e)

  emit_text-push_all :
      (type : TextOp) (c : State)
      → is_len type ≡ false
      → each_value (text_value type) (length vs) (push_all vs s.stack) s.codegen ≡ some c
      → emit_text type (length vs) (push_all vs s.stack) s.codegen
        ≡ some (s.stack, emit_zero type c)
  unfolding emit_text
  emit_text-push_all op_text_len c n e = cc
  emit_text-push_all op_text c n e = text_deleted op_text c e
  emit_text-push_all op_text_bit7 c n e = text_deleted op_text_bit7 c e
  emit_text-push_all op_text_zero c n e = text_deleted op_text_zero c e

  step-op_texts :
      (type : TextOp) (c : State)
      → is_len type ≡ false
      → each_value (text_value type) (length vs) (push_all vs s.stack) s.codegen ≡ some c
      → step t (op_texts type (length vs)) (stacked vs s) ≡ some (emitted (emit_zero type c) s)
  unfolding step execute
  step-op_texts type c n e =
      let none_reported : s.error_count + 0 ≡ s.error_count = omega arith in
      let counting : ℕ → Option Interp = λ n.
        with_codegen (record (stacked vs s) { error_count = n })
          (emit_text type (length vs) (push_all vs s.stack) s.codegen) in
      ap (λ b. under_exec b t (op_texts type (length vs)) (stacked vs s)) h
      ∙ ap (λ o. keep_exec (o >>= λ m. counting (s.error_count + m)))
          (text_errors_none type (length vs) (push_all vs s.stack) n)
      ∙ ap (λ m. keep_exec (counting m)) none_reported
      ∙ executed t vs s h (emit_zero type c) _ (emit_text-push_all type c n e)

  step-op_emit :
      (instr : Instr) (v : Object)
      → codegen_params instr.mode ≡ 1
      → step t (op_emit instr) (stacked (v ∷ []) s)
        ≡ some (emitted (codegen_gen t.machine instr (first_operand v) 0 0 s.codegen) s)
  unfolding step execute emit_instr operands
  step-op_emit instr v e =
      ap (λ b. under_exec b t (op_emit instr) (stacked (v ∷ []) s)) h
      ∙ executed t (v ∷ []) s h _ _
          (ap (λ n. generate t instr s.codegen (operands n (v ∷ s.stack))) e)

emit_zero-Emits : (type : TextOp) (c : State) → Emits c (emit_zero type c) (ends_with_zero type)
emit_zero-Emits op_text_zero c = codegen_byte-Emits 0 c
emit_zero-Emits _ c = Emits-refl c

module _ (t : Target) (es : List Expr) (vs : List Object) (s : Interp) (bs : List ℕ) where
  -- Where operations are executed, expressions with the values `vs` followed by OpWord emit for each
  -- value, in order, its two low bytes, the lowest first. All else but last_exec is as before, the
  -- stack included.
  pub stack_word-Assembles :
      s.exec ≡ true
      → values es ≡ some vs
      → listing word_listing vs ≡ some bs
      → Assembles t (postfix_all es ++ op_word (length es) ∷ []) s bs
  stack_word-Assembles h e l =
      let (c, r, emits) =
        each_value-push_all word_value word_listing word_value-listing vs s.stack s.codegen bs l in
      subst (λ n. Assembles t (postfix_all es ++ op_word n ∷ []) s bs) (length-values es vs e)
        (line t es vs s h e (op_word (length vs)) c bs (step-op_word t vs s h c r) emits)

  -- Where operations are executed, expressions with the values `vs` followed by OpText,
  -- OpTextBit7 or OpTextZero emit the bytes of the values in order: the characters of a string with
  -- its escapes decoded, and a number in one byte or, above 255, in two with the high one first.
  -- OpTextZero emits a 0 too, and OpTextBit7 sets the top bit of the last character of the last
  -- value if that is a string. Strings with a backslash at the end are left out. All else but
  -- last_exec is as before, the stack included.
  pub emit_text-Assembles :
      (type : TextOp)
      → s.exec ≡ true
      → is_len type ≡ false
      → values es ≡ some vs
      → listing (text_listing type) vs ≡ some bs
      → Assembles t (postfix_all es ++ op_texts type (length es) ∷ []) s (bs ++ ends_with_zero type)
  emit_text-Assembles type h n e l =
      let (c, r, emits) =
        each_value-push_all (text_value type) (text_listing type) (text_value-listing type) vs
          s.stack s.codegen bs l in
      subst
        (λ n. Assembles t (postfix_all es ++ op_texts type n ∷ []) s (bs ++ ends_with_zero type))
        (length-values es vs e)
        (line t es vs s h e (op_texts type (length vs)) (emit_zero type c) _
          (step-op_texts t vs s h type c n r)
          (Emits-trans bs (ends_with_zero type) emits (emit_zero-Emits type c)))

-- Where operations are executed, an expression with the value `v` followed by an instruction with
-- one parameter emits the machine code that the instruction has for the value's operand at the
-- current address, on any machine. Of the interpreter's state all else but last_exec is as before,
-- the stack included.
pub emit_instr-Assembles :
    (t : Target) (e : Expr) (v : Object) (instr : Instr) (s : Interp)
    → s.exec ≡ true
    → value e ≡ some v
    → codegen_params instr.mode ≡ 1
    → Assembles t
        (postfix e ++ op_emit instr ∷ [])
        s
        (machine_code t.machine instr (first_operand v) 0 0 (globals s.codegen))
emit_instr-Assembles t e v instr s h k one =
    let all : values (e ∷ []) ≡ some (v ∷ []) = rw k refl in
    subst
      (λ xs.
        Assembles t (xs ++ op_emit instr ∷ []) s
          (machine_code t.machine instr (first_operand v) 0 0 (globals s.codegen)))
      (append-nil (postfix e))
      (line t (e ∷ []) (v ∷ []) s h all (op_emit instr) _ _ (step-op_emit t [] s h instr v one)
        (codegen_gen-Emits t.machine instr (first_operand v) 0 0 s.codegen))
