-- ===== src/Parser/Termination.antt =====
-- The fuel that the compiler of expressions needs on any tokens.
use tools.Base.{
  Bool, true, false, ℕ, zero, suc, ◌+◌, ◌*◌, ◌≤◌, ◌≡◌, refl, ap, ◌∙◌, List, [], ◌∷◌, length, some,
  ◌>>=◌, arith,
}
use tools.Interp.Stack.{BinaryOp, op_add, op_sub, op_mul, op_div, op_idiv, op_mod, op_and, op_or}
use tools.Interp.Run.{Operation}
use tools.Parser.Rules.{
  Token, s_integer, s_real, s_string, s_ident, s_period, local_var, expect_ident, dotted, qualified,
  identifier, s_lparen, s_rparen, s_not, s_caret, s_ast, s_slash, s_div, s_mod, s_ampersand, s_plus,
  s_minus, s_barc, s_eql, s_neq, s_lss, s_leq, s_gtr, s_geq, s_left_shift, s_right_shift, Output,
  Result, added, close_paren, parse_factor, parse_term, term_rest, another_factor,
  parse_simple_expression, sum, simple_rest, another_term, parse_expression, relation,
}

-- There is a result, with at most so many tokens left.
abbrev pub Stops : ℕ → Result → Type 0
Stops l r = (q : List Token × Output) × (r ≡ some q) × (length q.0 ≤ l)

Stops-weaken : (l m : ℕ) (r : Result) → l ≤ m → Stops l r → Stops m r
Stops-weaken l m r h (q, e, k) = (q, e, omega (arith, h, k))

Stops-bind :
    (l : ℕ) (r : Result) (f : List Token × Output → Result)
    → Stops l r
    → ((q : List Token × Output) → length q.0 ≤ l → Stops l (f q))
    → Stops l (r >>= f)
Stops-bind l r f (q, e, k) h = let (q', e', k') = h q k in (q', ap (λ o. o >>= f) e ∙ e', k')

Stops-added : (l : ℕ) (r : Result) (op : Operation) → Stops l r → Stops l (r >>= added op)
Stops-added l r op h = Stops-bind l r (added op) h (λ (ts, out) k. (_, refl, k))

Stops-prefixed : (l : ℕ) (r : Result) (op : Operation) → Stops l r → Stops (suc l) (r >>= added op)
Stops-prefixed l r op h = Stops-weaken l _ _ (omega arith) (Stops-added l r op h)

close_paren-Stops :
    (l : ℕ) (ts : List Token) (out : Output) → length ts ≤ l → Stops l (close_paren (ts, out))
close_paren-Stops l [] out h = (_, refl, h)
close_paren-Stops l (s_rparen ∷ ts) out h = (_, refl, omega (arith, h))
close_paren-Stops l (_ ∷ ts) out h = (_, refl, h)

local_var-Stops :
    (name : List ℕ) (ts : List Token) (out : Output)
    → Stops (length ts) (local_var name (expect_ident ts out))
local_var-Stops name [] out = (_, refl, omega arith)
local_var-Stops name (s_ident part ∷ ts) out = (_, refl, omega arith)
local_var-Stops name (_ ∷ ts) out = (_, refl, omega arith)

dotted-Stops :
    (name : List ℕ) (ts : List Token) (out : Output) → Stops (length ts) (dotted name ts out)
unfolding dotted
dotted-Stops name [] out = (_, refl, omega arith)
dotted-Stops name (s_period _ ∷ []) out = (_, refl, omega arith)
dotted-Stops name (s_period _ ∷ s_ident part ∷ ts) out =
    Stops-weaken (length ts) _ _ (omega arith) (dotted-Stops (qualified name part) ts out)
dotted-Stops name (s_period _ ∷ _ ∷ ts) out = (_, refl, omega arith)
dotted-Stops name (_ ∷ ts) out = (_, refl, omega arith)

identifier-Stops :
    (is_local : Bool) (name : List ℕ) (ts : List Token) (out : Output)
    → Stops (length ts) (identifier is_local name ts out)
identifier-Stops true name ts out = (_, refl, omega arith)
identifier-Stops false name ts out = dotted-Stops name ts out

mutual
  unfolding parse_factor parse_term term_rest another_factor parse_simple_expression sum simple_rest
      another_term parse_expression relation

  factor-Stops :
      (n : ℕ) (is_local : Bool) (ts : List Token) (out : Output)
      → 5 * length ts + 1 ≤ n
      → Stops (length ts) (parse_factor n is_local ts out)
  factor-Stops zero is_local ts out h = absurd (omega (arith, h))
  factor-Stops (suc f) is_local [] out h = (_, refl, omega arith)
  factor-Stops (suc f) is_local (s_integer n ∷ ts) out h = (_, refl, omega arith)
  factor-Stops (suc f) is_local (s_real n ∷ ts) out h = (_, refl, omega arith)
  factor-Stops (suc f) is_local (s_string pointer cs ∷ ts) out h = (_, refl, omega arith)
  factor-Stops (suc f) is_local (s_period name ∷ ts) out h =
      Stops-weaken (length ts) _ _ (omega arith) (local_var-Stops name ts out)
  factor-Stops (suc f) is_local (s_ident name ∷ ts) out h =
      Stops-weaken (length ts) _ _ (omega arith) (identifier-Stops is_local name ts out)
  factor-Stops (suc f) is_local (s_lparen ∷ ts) out h = Stops-weaken (length ts) _ _ (omega arith) (
      Stops-bind (length ts) _ close_paren (expression-Stops f false ts out (omega (arith, h)))
        (λ (us, o) k. close_paren-Stops (length ts) us o k))
  factor-Stops (suc f) is_local (s_not ∷ ts) out h =
      Stops-prefixed (length ts) _ _ (factor-Stops f false ts out (omega (arith, h)))
  factor-Stops (suc f) is_local (s_lss ∷ ts) out h =
      Stops-prefixed (length ts) _ _ (factor-Stops f false ts out (omega (arith, h)))
  factor-Stops (suc f) is_local (s_gtr ∷ ts) out h =
      Stops-prefixed (length ts) _ _ (factor-Stops f false ts out (omega (arith, h)))
  factor-Stops (suc f) is_local (s_caret ∷ ts) out h =
      Stops-prefixed (length ts) _ _ (factor-Stops f false ts out (omega (arith, h)))
  factor-Stops (suc f) is_local (_ ∷ ts) out h = (_, refl, omega arith)

  term-Stops :
      (n : ℕ) (is_local : Bool) (ts : List Token) (out : Output)
      → 5 * length ts + 2 ≤ n
      → Stops (length ts) (parse_term n is_local ts out)
  term-Stops zero is_local ts out h = absurd (omega (arith, h))
  term-Stops (suc f) is_local ts out h =
      Stops-bind (length ts) _ _ (factor-Stops f is_local ts out (omega (arith, h)))
        (λ (us, o) k. Stops-weaken (length us) _ _ k (term_rest-Stops f us o (omega (arith, h, k))))

  term_rest-Stops :
      (n : ℕ) (ts : List Token) (out : Output)
      → 5 * length ts + 1 ≤ n
      → Stops (length ts) (term_rest n ts out)
  term_rest-Stops zero ts out h = absurd (omega (arith, h))
  term_rest-Stops (suc f) [] out h = (_, refl, omega arith)
  term_rest-Stops (suc f) (s_ast ∷ ts) out h =
      another_factor-Stops f op_mul ts out (omega (arith, h))
  term_rest-Stops (suc f) (s_slash ∷ ts) out h =
      another_factor-Stops f op_div ts out (omega (arith, h))
  term_rest-Stops (suc f) (s_div ∷ ts) out h =
      another_factor-Stops f op_idiv ts out (omega (arith, h))
  term_rest-Stops (suc f) (s_mod ∷ ts) out h =
      another_factor-Stops f op_mod ts out (omega (arith, h))
  term_rest-Stops (suc f) (s_ampersand ∷ ts) out h =
      another_factor-Stops f op_and ts out (omega (arith, h))
  term_rest-Stops (suc f) (_ ∷ ts) out h = (_, refl, omega arith)

  another_factor-Stops :
      (n : ℕ) (op : BinaryOp) (ts : List Token) (out : Output)
      → 5 * length ts + 2 ≤ n
      → Stops (suc (length ts)) (another_factor n op ts out)
  another_factor-Stops zero op ts out h = absurd (omega (arith, h))
  another_factor-Stops (suc f) op ts out h = Stops-weaken (length ts) _ _ (omega arith) (
      Stops-bind (length ts) _ _
        (Stops-added (length ts) _ _ (factor-Stops f false ts out (omega (arith, h))))
        (λ (us, o) k.
          Stops-weaken (length us) _ _ k (term_rest-Stops f us o (omega (arith, h, k)))))

  simple-Stops :
      (n : ℕ) (is_local : Bool) (ts : List Token) (out : Output)
      → 5 * length ts + 4 ≤ n
      → Stops (length ts) (parse_simple_expression n is_local ts out)
  simple-Stops zero is_local ts out h = absurd (omega (arith, h))
  simple-Stops (suc f) is_local [] out h = sum-Stops f is_local [] out (omega (arith, h))
  simple-Stops (suc f) is_local (s_plus ∷ ts) out h =
      Stops-weaken (length ts) _ _ (omega arith) (sum-Stops f is_local ts out (omega (arith, h)))
  simple-Stops (suc f) is_local (s_minus ∷ ts) out h =
      Stops-weaken (length ts) _ _ (omega arith)
        (Stops-added (length ts) _ _ (sum-Stops f is_local ts out (omega (arith, h))))
  simple-Stops (suc f) is_local (_ ∷ ts) out h = sum-Stops f is_local _ out (omega (arith, h))

  sum-Stops :
      (n : ℕ) (is_local : Bool) (ts : List Token) (out : Output)
      → 5 * length ts + 3 ≤ n
      → Stops (length ts) (sum n is_local ts out)
  sum-Stops zero is_local ts out h = absurd (omega (arith, h))
  sum-Stops (suc f) is_local ts out h =
      Stops-bind (length ts) _ _ (term-Stops f is_local ts out (omega (arith, h))) (λ (us, o) k.
        Stops-weaken (length us) _ _ k (simple_rest-Stops f us o (omega (arith, h, k))))

  simple_rest-Stops :
      (n : ℕ) (ts : List Token) (out : Output)
      → 5 * length ts + 2 ≤ n
      → Stops (length ts) (simple_rest n ts out)
  simple_rest-Stops zero ts out h = absurd (omega (arith, h))
  simple_rest-Stops (suc f) [] out h = (_, refl, omega arith)
  simple_rest-Stops (suc f) (s_plus ∷ ts) out h =
      another_term-Stops f op_add ts out (omega (arith, h))
  simple_rest-Stops (suc f) (s_minus ∷ ts) out h =
      another_term-Stops f op_sub ts out (omega (arith, h))
  simple_rest-Stops (suc f) (s_barc ∷ ts) out h =
      another_term-Stops f op_or ts out (omega (arith, h))
  simple_rest-Stops (suc f) (_ ∷ ts) out h = (_, refl, omega arith)

  another_term-Stops :
      (n : ℕ) (op : BinaryOp) (ts : List Token) (out : Output)
      → 5 * length ts + 3 ≤ n
      → Stops (suc (length ts)) (another_term n op ts out)
  another_term-Stops zero op ts out h = absurd (omega (arith, h))
  another_term-Stops (suc f) op ts out h = Stops-weaken (length ts) _ _ (omega arith) (
      Stops-bind (length ts) _ _
        (Stops-added (length ts) _ _ (term-Stops f false ts out (omega (arith, h))))
        (λ (us, o) k.
          Stops-weaken (length us) _ _ k (simple_rest-Stops f us o (omega (arith, h, k)))))

  expression-Stops :
      (n : ℕ) (is_local : Bool) (ts : List Token) (out : Output)
      → 5 * length ts + 5 ≤ n
      → Stops (length ts) (parse_expression n is_local ts out)
  expression-Stops zero is_local ts out h = absurd (omega (arith, h))
  expression-Stops (suc f) is_local ts out h =
      Stops-bind (length ts) _ _ (simple-Stops f is_local ts out (omega (arith, h)))
        (λ (us, o) k. Stops-weaken (length us) _ _ k (relation-Stops f us o (omega (arith, h, k))))

  relation-Stops :
      (n : ℕ) (ts : List Token) (out : Output)
      → 5 * length ts + 4 ≤ n
      → Stops (length ts) (relation n ts out)
  relation-Stops zero ts out h = absurd (omega (arith, h))
  relation-Stops (suc f) [] out h = (_, refl, omega arith)
  relation-Stops (suc f) (s_eql ∷ ts) out h =
      Stops-prefixed (length ts) _ _ (simple-Stops f false ts out (omega (arith, h)))
  relation-Stops (suc f) (s_neq ∷ ts) out h =
      Stops-prefixed (length ts) _ _ (simple-Stops f false ts out (omega (arith, h)))
  relation-Stops (suc f) (s_lss ∷ ts) out h =
      Stops-prefixed (length ts) _ _ (simple-Stops f false ts out (omega (arith, h)))
  relation-Stops (suc f) (s_leq ∷ ts) out h =
      Stops-prefixed (length ts) _ _ (simple-Stops f false ts out (omega (arith, h)))
  relation-Stops (suc f) (s_gtr ∷ ts) out h =
      Stops-prefixed (length ts) _ _ (simple-Stops f false ts out (omega (arith, h)))
  relation-Stops (suc f) (s_geq ∷ ts) out h =
      Stops-prefixed (length ts) _ _ (simple-Stops f false ts out (omega (arith, h)))
  relation-Stops (suc f) (s_left_shift ∷ ts) out h =
      Stops-prefixed (length ts) _ _ (simple-Stops f false ts out (omega (arith, h)))
  relation-Stops (suc f) (s_right_shift ∷ ts) out h =
      Stops-prefixed (length ts) _ _ (simple-Stops f false ts out (omega (arith, h)))
  relation-Stops (suc f) (_ ∷ ts) out h = (_, refl, omega arith)

-- On any tokens, identifiers, qualified names and reals included, an expression of them or not,
-- parse_expression comes to an end: with fuel of five times their number and 5 it has a result, with
-- no more tokens than it was given.
pub parse_expression-Stops :
    (n : ℕ) (is_local : Bool) (ts : List Token) (out : Output)
    → 5 * length ts + 5 ≤ n
    → Stops (length ts) (parse_expression n is_local ts out)
parse_expression-Stops n is_local ts out h = expression-Stops n is_local ts out h
