-- ===== src/Parser/RoundTrip.antt =====
-- The compiler of expressions on the tokens of an expression: it emits the tree in postfix order.
use tools.Base.{Bool, false, ℕ, zero, suc, ◌≤◌, ◌≡◌, refl, ap, ◌∙◌, List, ◌∷◌, some, ◌>>=◌, arith}
use tools.Interp.Stack.{op_neg}
use tools.Interp.Run.{op_binary, op_unary}
use tools.Interp.Postfix.{Expr, binary, postfix}
use tools.Parser.Rules.{
  Token, s_rparen, Output, Result, added, close_paren, parse_factor, parse_term, term_rest,
  another_factor, parse_simple_expression, sum, simple_rest, another_term, parse_expression,
  relation,
}
use tools.Parser.Syntax.{
  Sign, no_sign, positive, negative, Factor, number, quoted, parens, prefixed, Factors, no_factors,
  factors, Term, term, Terms, no_terms, terms, SimpleExpression, simple, Expression, only, related,
  prefix_op, mul_op, add_op, relation_token, relation_op, print_sign, print_factor, print_factors,
  print_term, print_terms, print_simple, print_expression, signed, tree_of_factor, multiplied,
  tree_of_term, summed, tree_of_simple, tree_of, cost_of_factor, cost_of_factors, cost_of_term,
  cost_of_terms, cost_of_simple, cost,
}
use tools.Parser.Ends.{
  EndsTerm, EndsSimple, Ends, adding, adding-unary, adding-binary, term_rest-EndsTerm,
  simple_rest-EndsSimple, relation-Ends, term_rest-mul_token, simple_rest-add_token,
  relation-relation_token, parse_factor-prefix_token, parse_simple-print_factor,
  print_terms-EndsTerm, relation_token-EndsSimple,
}

-- The result is these tokens, behind the output with the operations of a tree.
abbrev Gives : Result → List Token → Expr → Output → Type 0
Gives r ts x out = r ≡ some (ts, adding (postfix x) out)

sum-Gives :
    (n : ℕ) (is_local : Bool) (ss us ts : List Token) (x y : Expr) (out : Output)
    → Gives (parse_term n is_local ss out) us x out
    → Gives (simple_rest n us (adding (postfix x) out)) ts y out
    → Gives (sum (suc n) is_local ss out) ts y out
unfolding sum
sum-Gives n is_local ss us ts x y out h k = ap (λ r. r >>= λ (vs, o). simple_rest n vs o) h ∙ k

signed-Gives :
    (sign : Sign) (x : Term) (n : ℕ) (is_local : Bool) (us ts : List Token) (y : Expr)
    (out : Output)
    → Gives (sum n is_local (print_term x us) out) ts y out
    → Gives
        (parse_simple_expression (suc n) is_local (print_sign sign (print_term x us)) out)
        ts
        (signed sign y)
        out
unfolding parse_simple_expression print_term
signed-Gives no_sign (term f fs) n is_local us ts y out h =
    parse_simple-print_factor n is_local f (print_factors fs us) out ∙ h
signed-Gives positive x n is_local us ts y out h = h
signed-Gives negative x n is_local us ts y out h =
    ap (λ r. r >>= added (op_unary op_neg)) h ∙ adding-unary (op_unary op_neg) (postfix y) ts out

mutual
  unfolding parse_factor parse_term another_factor parse_simple_expression sum another_term
      parse_expression print_factor print_factors print_term print_terms print_simple
      print_expression tree_of_factor multiplied tree_of_term summed tree_of_simple tree_of
      cost_of_factor cost_of_factors cost_of_term cost_of_terms cost_of_simple cost

  factor_lem :
      (f : Factor) (n : ℕ) (is_local : Bool) (ts : List Token) (out : Output)
      → cost_of_factor f ≤ n
      → Gives (parse_factor n is_local (print_factor f ts) out) ts (tree_of_factor f) out
  factor_lem (number m) zero is_local ts out h = absurd (omega (arith, h))
  factor_lem (quoted pointer cs) zero is_local ts out h = absurd (omega (arith, h))
  factor_lem (parens e) zero is_local ts out h = absurd (omega (arith, h))
  factor_lem (prefixed p f) zero is_local ts out h = absurd (omega (arith, h))
  factor_lem (number m) (suc n) is_local ts out h = refl
  factor_lem (quoted pointer cs) (suc n) is_local ts out h = refl
  factor_lem (parens e) (suc n) is_local ts out h =
      ap (λ r. r >>= close_paren)
        (expression_lem e n false (s_rparen ∷ ts) out ((refl, refl), refl) (omega (arith, h)))
  factor_lem (prefixed p f) (suc n) is_local ts out h =
      parse_factor-prefix_token n is_local p (print_factor f ts) out
      ∙ ap (λ r. r >>= added (op_unary (prefix_op p)))
          (factor_lem f n false ts out (omega (arith, h)))
      ∙ adding-unary (op_unary (prefix_op p)) (postfix (tree_of_factor f)) ts out

  factors_lem :
      (fs : Factors) (x : Expr) (n : ℕ) (ts : List Token) (out : Output)
      → EndsTerm ts
      → cost_of_factors fs ≤ n
      → Gives (term_rest n (print_factors fs ts) (adding (postfix x) out)) ts (multiplied fs x) out
  factors_lem no_factors x n ts out e h = term_rest-EndsTerm n ts (adding (postfix x) out) e h
  factors_lem (factors op f fs) x zero ts out e h = absurd (omega (arith, h))
  factors_lem (factors op f fs) x (suc zero) ts out e h = absurd (omega (arith, h))
  factors_lem (factors op f fs) x (suc (suc n)) ts out e h =
      term_rest-mul_token (suc n) op (print_factor f (print_factors fs ts)) (adding (postfix x) out)
      ∙ ap (λ r. r >>= added (op_binary (mul_op op)) >>= λ (us, o). term_rest n us o)
          (factor_lem f n false (print_factors fs ts) (adding (postfix x) out) (omega (arith, h)))
      ∙ ap (λ r. r >>= λ (us, o). term_rest n us o)
          (adding-binary (op_binary (mul_op op)) (postfix x) (postfix (tree_of_factor f))
            (print_factors fs ts) out)
      ∙ factors_lem fs (binary (mul_op op) x (tree_of_factor f)) n ts out e (omega (arith, h))

  term_lem :
      (x : Term) (n : ℕ) (is_local : Bool) (ts : List Token) (out : Output)
      → EndsTerm ts
      → cost_of_term x ≤ n
      → Gives (parse_term n is_local (print_term x ts) out) ts (tree_of_term x) out
  term_lem (term f fs) zero is_local ts out e h = absurd (omega (arith, h))
  term_lem (term f fs) (suc n) is_local ts out e h =
      ap (λ r. r >>= λ (us, o). term_rest n us o)
        (factor_lem f n is_local (print_factors fs ts) out (omega (arith, h)))
      ∙ factors_lem fs (tree_of_factor f) n ts out e (omega (arith, h))

  terms_lem :
      (xs : Terms) (x : Expr) (n : ℕ) (ts : List Token) (out : Output)
      → EndsSimple ts
      → cost_of_terms xs ≤ n
      → Gives (simple_rest n (print_terms xs ts) (adding (postfix x) out)) ts (summed xs x) out
  terms_lem no_terms x n ts out e h = simple_rest-EndsSimple n ts (adding (postfix x) out) e h
  terms_lem (terms op y ys) x zero ts out e h = absurd (omega (arith, h))
  terms_lem (terms op y ys) x (suc zero) ts out e h = absurd (omega (arith, h))
  terms_lem (terms op y ys) x (suc (suc n)) ts out e h =
      simple_rest-add_token (suc n) op (print_term y (print_terms ys ts)) (adding (postfix x) out)
      ∙ ap (λ r. r >>= added (op_binary (add_op op)) >>= λ (us, o). simple_rest n us o)
          (term_lem y n false (print_terms ys ts) (adding (postfix x) out)
            (print_terms-EndsTerm ys ts e.0) (omega (arith, h)))
      ∙ ap (λ r. r >>= λ (us, o). simple_rest n us o)
          (adding-binary (op_binary (add_op op)) (postfix x) (postfix (tree_of_term y))
            (print_terms ys ts) out)
      ∙ terms_lem ys (binary (add_op op) x (tree_of_term y)) n ts out e (omega (arith, h))

  simple_lem :
      (x : SimpleExpression) (n : ℕ) (is_local : Bool) (ts : List Token) (out : Output)
      → EndsSimple ts
      → cost_of_simple x ≤ n
      → Gives (parse_simple_expression n is_local (print_simple x ts) out) ts (tree_of_simple x) out
  simple_lem (simple sign x xs) zero is_local ts out e h = absurd (omega (arith, h))
  simple_lem (simple sign x xs) (suc zero) is_local ts out e h = absurd (omega (arith, h))
  simple_lem (simple sign x xs) (suc (suc n)) is_local ts out e h =
      signed-Gives sign x (suc n) is_local (print_terms xs ts) ts (summed xs (tree_of_term x)) out (
        sum-Gives n is_local (print_term x (print_terms xs ts)) (print_terms xs ts) ts
          (tree_of_term x) (summed xs (tree_of_term x)) out
          (term_lem x n is_local (print_terms xs ts) out (print_terms-EndsTerm xs ts e.0)
            (omega (arith, h)))
          (terms_lem xs (tree_of_term x) n ts out e (omega (arith, h))))

  expression_lem :
      (e : Expression) (n : ℕ) (is_local : Bool) (ts : List Token) (out : Output)
      → Ends ts
      → cost e ≤ n
      → Gives (parse_expression n is_local (print_expression e ts) out) ts (tree_of e) out
  expression_lem (only x) zero is_local ts out k h = absurd (omega (arith, h))
  expression_lem (only x) (suc n) is_local ts out k h =
      ap (λ r. r >>= λ (us, o). relation n us o)
        (simple_lem x n is_local ts out k.0 (omega (arith, h)))
      ∙ relation-Ends n ts (adding (postfix (tree_of_simple x)) out) k (omega (arith, h))
  expression_lem (related op x y) zero is_local ts out k h = absurd (omega (arith, h))
  expression_lem (related op x y) (suc zero) is_local ts out k h = absurd (omega (arith, h))
  expression_lem (related op x y) (suc (suc n)) is_local ts out k h =
      ap (λ r. r >>= λ (us, o). relation (suc n) us o)
        (simple_lem x (suc n) is_local (relation_token op ∷ print_simple y ts) out
          (relation_token-EndsSimple op (print_simple y ts)) (omega (arith, h)))
      ∙ relation-relation_token n op (print_simple y ts) (adding (postfix (tree_of_simple x)) out)
      ∙ ap (λ r. r >>= added (op_binary (relation_op op)))
          (simple_lem y n false ts (adding (postfix (tree_of_simple x)) out) k.0 (omega (arith, h)))
      ∙ adding-binary (op_binary (relation_op op)) (postfix (tree_of_simple x))
          (postfix (tree_of_simple y)) ts out

-- On the tokens of any expression of the grammar, in front of tokens that do not extend it,
-- parse_expression with enough fuel takes exactly these tokens, reports no error, and adds the
-- operations of the expression's tree, in which operators of one kind group to the left and a sign
-- stands for that of the whole sum, in postfix order to the macro that is being defined or to the
-- section; without a section it adds nothing.
pub parse_expression-print :
    (e : Expression) (n : ℕ) (is_local : Bool) (ts : List Token) (out : Output)
    → Ends ts
    → cost e ≤ n
    → parse_expression n is_local (print_expression e ts) out
      ≡ some (ts, adding (postfix (tree_of e)) out)
parse_expression-print e n is_local ts out k h = expression_lem e n is_local ts out k h
