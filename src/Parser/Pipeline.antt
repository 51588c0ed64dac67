-- ===== src/Parser/Pipeline.antt =====
-- Lines of data from their tokens to the bytes in the section: the compiler of expressions and the
-- interpreter together.
use tools.Base.{
  ℕ, zero, suc, ◌+◌, ◌≤◌, ◌≡◌, refl, sym, ap, subst, ◌∙◌, false, true, List, [], ◌∷◌, ◌++◌, Option,
  some, ◌>>=◌, length, arith,
}
use tools.Interp.Emit.{Target}
use tools.Interp.Object.{Object}
use tools.Interp.Run.{Operation, op_byte, Interp}
use tools.Interp.Postfix.{Expr, postfix}
use tools.Interp.Values.{listing}
use tools.Interp.Data.{byte_listing}
use tools.Interp.Assemble.{postfix_all, values, Assembles, stack_byte-Assembles}
use tools.Cpu.{Modifier, m_byte}
use tools.Parser.Rules.{Token, s_comma, s_statesep, Output, parse_expression}
use tools.Parser.Syntax.{
  SimpleExpression, Expression, only, related, simple, no_sign, positive, negative, term, number,
  quoted, parens, prefixed, not_sign, low_sign, high_sign, bank_sign, Factor, print_factor,
  print_term, print_simple, print_expression, tree_of, cost,
}
use tools.Parser.Ends.{Ends, adding, adding-binary, adding-adding, adding-nil}
use tools.Parser.RoundTrip.{parse_expression-print}
use tools.Parser.Lists.{parse_list, list_item, list_more, data_op, add_counted, parse_data}

-- the tokens of expressions behind commas, and the fuel for them
abbrev pub print_tail : List Expression → List Token → List Token
print_tail [] ts = ts
print_tail (e ∷ es) ts = s_comma ∷ print_expression e (print_tail es ts)

abbrev pub cost_of_tail : List Expression → ℕ
cost_of_tail [] = 1
cost_of_tail (e ∷ es) = 3 + (cost e + cost_of_tail es)

abbrev pub trees : List Expression → List Expr
trees [] = []
trees (e ∷ es) = tree_of e ∷ trees es

length-trees : (es : List Expression) → length (trees es) ≡ length es
length-trees [] = refl
length-trees (e ∷ es) = ap (λ n. suc n) (length-trees es)

-- The first token of an expression is neither a comma nor the end of the statement.
abbrev Begins : ℕ → ℕ → List Token → Output → Type 0
Begins n c ts out =
    (list_item (suc n) c ts out
      ≡ (parse_expression n false ts out >>= λ (us, o). list_more n (suc c) us o))
    × (parse_list (suc n) c ts out ≡ list_item n c ts out)

print_factor-Begins :
    (n c : ℕ) (f : Factor) (ts : List Token) (out : Output) → Begins n c (print_factor f ts) out
unfolding list_item parse_list print_factor
print_factor-Begins n c (number m) ts out = (refl, refl)
print_factor-Begins n c (quoted pointer cs) ts out = (refl, refl)
print_factor-Begins n c (parens e) ts out = (refl, refl)
print_factor-Begins n c (prefixed not_sign f) ts out = (refl, refl)
print_factor-Begins n c (prefixed low_sign f) ts out = (refl, refl)
print_factor-Begins n c (prefixed high_sign f) ts out = (refl, refl)
print_factor-Begins n c (prefixed bank_sign f) ts out = (refl, refl)

print_simple-Begins :
    (n c : ℕ) (x : SimpleExpression) (ts : List Token) (out : Output)
    → Begins n c (print_simple x ts) out
unfolding list_item parse_list print_simple print_term
print_simple-Begins n c (simple no_sign (term f fs) xs) ts out = print_factor-Begins n c f _ out
print_simple-Begins n c (simple positive x xs) ts out = (refl, refl)
print_simple-Begins n c (simple negative x xs) ts out = (refl, refl)

print_expression-Begins :
    (n c : ℕ) (e : Expression) (ts : List Token) (out : Output)
    → Begins n c (print_expression e ts) out
unfolding print_expression
print_expression-Begins n c (only x) ts out = print_simple-Begins n c x ts out
print_expression-Begins n c (related op x y) ts out = print_simple-Begins n c x _ out

print_tail-Ends : (es : List Expression) (ts : List Token) → Ends (print_tail es (s_statesep ∷ ts))
print_tail-Ends [] ts = ((refl, refl), refl)
print_tail-Ends (e ∷ es) ts = ((refl, refl), refl)

-- the expressions of a list from its tokens
abbrev Counts :
    ℕ → List Expression → List Token → Output → Option (ℕ × List Token × Output) → Type 0
Counts c es ts out r =
    r ≡ some (c + length es, s_statesep ∷ ts, adding (postfix_all (trees es)) out)

list_more-print :
    (es : List Expression) (n c : ℕ) (ts : List Token) (out : Output)
    → cost_of_tail es ≤ n
    → Counts c es ts out (list_more n c (print_tail es (s_statesep ∷ ts)) out)
unfolding list_more parse_list
list_more-print [] zero c ts out h = absurd (omega (arith, h))
list_more-print [] (suc n) c ts out h =
    let count : c ≡ c + 0 = omega arith in
    ap (λ k. some (k, s_statesep ∷ ts, out)) count
    ∙ ap (λ o. some (c + 0, s_statesep ∷ ts, o)) (sym (adding-nil out))
list_more-print (e ∷ es) zero c ts out h = absurd (omega (arith, h))
list_more-print (e ∷ es) (suc zero) c ts out h = absurd (omega (arith, h))
list_more-print (e ∷ es) (suc (suc zero)) c ts out h = absurd (omega (arith, h))
list_more-print (e ∷ es) (suc (suc (suc n))) c ts out h =
    (print_expression-Begins n c e (print_tail es (s_statesep ∷ ts)) out).0
    ∙ ap (λ r. r >>= λ (us, o). list_more n (suc c) us o)
        (parse_expression-print e n false (print_tail es (s_statesep ∷ ts)) out
          (print_tail-Ends es ts) (omega (arith, h)))
    ∙ list_more-print es n (suc c) ts (adding (postfix (tree_of e)) out) (omega (arith, h))
    ∙ (let count : suc c + length es ≡ c + suc (length es) = omega arith in
        ap
          (λ k. some (
            k,
            s_statesep ∷ ts,
            adding (postfix_all (trees es)) (adding (postfix (tree_of e)) out),
          ))
          count)
    ∙ ap (λ o. some (c + suc (length es), s_statesep ∷ ts, o))
        (adding-adding (postfix (tree_of e)) (postfix_all (trees es)) out)

-- the tokens of a list, and the operations that a list of data leaves
abbrev pub print_list : Expression → List Expression → List Token → List Token
print_list e es ts = print_expression e (print_tail es ts)

abbrev pub data_ops : Modifier → List Expression → List Operation
data_ops modifier es = postfix_all (trees es) ++ data_op modifier (length es) ∷ []

-- On the tokens of expressions between commas up to the end of the statement, parse_data with
-- enough fuel adds the operations of the expressions in order and the one that emits so many
-- values under the modifier, reports no error and stops at the end of the statement.
pub parse_data-print :
    (modifier : Modifier) (e : Expression) (es : List Expression) (n : ℕ) (ts : List Token)
    (out : Output)
    → cost_of_tail (e ∷ es) ≤ n
    → parse_data n modifier (print_list e es (s_statesep ∷ ts)) out
      ≡ some (s_statesep ∷ ts, adding (data_ops modifier (e ∷ es)) out)
unfolding parse_data
parse_data-print modifier e es zero ts out h = absurd (omega (arith, h))
parse_data-print modifier e es (suc zero) ts out h = absurd (omega (arith, h))
parse_data-print modifier e es (suc (suc n)) ts out h =
    let rest = print_tail es (s_statesep ∷ ts) in
    ap (λ r. r >>= add_counted (data_op modifier))
      ((print_expression-Begins (suc n) 0 e rest out).1
        ∙ (print_expression-Begins n 0 e rest out).0
        ∙ ap (λ r. r >>= λ (us, o). list_more n 1 us o)
            (parse_expression-print e n false rest out (print_tail-Ends es ts) (omega (arith, h)))
        ∙ list_more-print es n 1 ts (adding (postfix (tree_of e)) out) (omega (arith, h)))
    ∙ (let count : 1 + length es ≡ suc (length es) = omega arith in
        ap
          (λ k. add_counted (data_op modifier) (
            k,
            s_statesep ∷ ts,
            adding (postfix_all (trees es)) (adding (postfix (tree_of e)) out),
          ))
          count)
    ∙ adding-binary (data_op modifier (suc (length es))) (postfix (tree_of e))
        (postfix_all (trees es)) (s_statesep ∷ ts) out

-- With enough fuel, the tokens of a list of expressions with the values `vs`, compiled by
-- parse_data for bytes and then executed where operations are executed, emit the bytes that the
-- values stand for, in order: the low byte of a number, all bytes of a string.
pub parse_data-Assembles :
    (t : Target) (e : Expression) (es : List Expression) (n : ℕ) (ts : List Token) (out : Output)
    (vs : List Object) (bs : List ℕ) (s : Interp)
    → cost_of_tail (e ∷ es) ≤ n
    → s.exec ≡ true
    → values (trees (e ∷ es)) ≡ some vs
    → listing (byte_listing t) vs ≡ some bs
    → (ops : List Operation) × (parse_data n m_byte (print_list e es (s_statesep ∷ ts)) out
        ≡ some (s_statesep ∷ ts, adding ops out))
      × Assembles t ops s bs
unfolding data_op
parse_data-Assembles t e es n ts out vs bs s h k l m = (
  data_ops m_byte (e ∷ es),
  parse_data-print m_byte e es n ts out h,
  subst (λ k. Assembles t (postfix_all (trees (e ∷ es)) ++ op_byte k ∷ []) s bs)
      (length-trees (e ∷ es)) (stack_byte-Assembles t (trees (e ∷ es)) vs s bs k l m),
)
