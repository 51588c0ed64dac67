-- ===== src/Parser/Ends.antt =====
-- Where the loops of the compiler of expressions end, and the steps of its operators.
use tools.Base.{
  ℕ, zero, suc, ◌≤◌, ◌≡◌, refl, ap, ◌∙◌, Bool, true, false, List, [], ◌∷◌, ◌++◌, append_assoc,
  append-nil, some, ◌>>=◌, arith,
}
use tools.Interp.Run.{Operation, op_binary, op_unary}
use tools.Parser.Rules.{
  Compiled, plain, Destination, nowhere, in_macro, in_section, put, Token, s_ast, s_slash, s_div,
  s_mod, s_ampersand, s_plus, s_minus, s_barc, s_eql, s_neq, s_lss, s_leq, s_gtr, s_geq,
  s_left_shift, s_right_shift, Output, added, parse_factor, term_rest, another_factor,
  parse_simple_expression, sum, simple_rest, another_term, relation,
}
use tools.Parser.Syntax.{
  Prefix, not_sign, low_sign, high_sign, bank_sign, MulOperator, times, over, div_word, mod_word,
  and_sign, AddOperator, plus, minus, or_sign, Relation, equal, unequal, less, less_equal, greater,
  greater_equal, shifted_left, shifted_right, Factor, number, quoted, parens, prefixed, Terms,
  no_terms, terms, prefix_token, prefix_op, mul_token, mul_op, add_token, add_op, relation_token,
  relation_op, print_factor, print_terms,
}

abbrev pub is_mul : Token → Bool
is_mul s_ast = true
is_mul s_slash = true
is_mul s_div = true
is_mul s_mod = true
is_mul s_ampersand = true
is_mul _ = false

abbrev pub is_add : Token → Bool
is_add s_plus = true
is_add s_minus = true
is_add s_barc = true
is_add _ = false

abbrev pub is_relation : Token → Bool
is_relation s_eql = true
is_relation s_neq = true
is_relation s_lss = true
is_relation s_leq = true
is_relation s_gtr = true
is_relation s_geq = true
is_relation s_left_shift = true
is_relation s_right_shift = true
is_relation _ = false

abbrev pub starts : (Token → Bool) → List Token → Bool
starts p [] = false
starts p (k ∷ ts) = p k

-- No operator stands in front, of those that extend a term, a simple expression, an expression.
abbrev pub EndsTerm : List Token → Type 0
EndsTerm ts = starts is_mul ts ≡ false

abbrev pub EndsSimple : List Token → Type 0
EndsSimple ts = EndsTerm ts × (starts is_add ts ≡ false)

abbrev pub Ends : List Token → Type 0
Ends ts = EndsSimple ts × (starts is_relation ts ≡ false)

abbrev pub compiled : List Operation → List Compiled
compiled [] = []
compiled (op ∷ ops) = plain op ∷ compiled ops

-- the output with the operations in their place
abbrev pub adding : List Operation → Output → Output
adding ops out = put out.to (compiled ops) out

compiled-append : (xs ys : List Operation) → compiled xs ++ compiled ys ≡ compiled (xs ++ ys)
compiled-append [] ys = refl
compiled-append (x ∷ xs) ys = ap (λ zs. plain x ∷ zs) (compiled-append xs ys)

append-compiled :
    (zs : List Compiled) (xs ys : List Operation)
    → zs ++ compiled xs ++ compiled ys ≡ zs ++ compiled (xs ++ ys)
append-compiled zs xs ys =
    append_assoc zs (compiled xs) (compiled ys) ∙ ap (λ us. zs ++ us) (compiled-append xs ys)

adding_to :
    (d : Destination) (xs ys : List Operation) (out : Output)
    → adding ys (adding xs (record out { to = d })) ≡ adding (xs ++ ys) (record out { to = d })
adding_to nowhere xs ys out = refl
adding_to in_macro xs ys out =
    ap (λ zs. record out { to = in_macro; macro_ops = zs }) (append-compiled out.macro_ops xs ys)
adding_to in_section xs ys out =
    ap (λ zs. record out { to = in_section; ops = zs }) (append-compiled out.ops xs ys)

pub adding-adding :
    (xs ys : List Operation) (out : Output) → adding ys (adding xs out) ≡ adding (xs ++ ys) out
adding-adding xs ys out = adding_to out.to xs ys out

adding_nothing_to :
    (d : Destination) (out : Output) → adding [] (record out { to = d }) ≡ record out { to = d }
adding_nothing_to nowhere out = refl
adding_nothing_to in_macro out =
    ap (λ zs. record out { to = in_macro; macro_ops = zs }) (append-nil out.macro_ops)
adding_nothing_to in_section out =
    ap (λ zs. record out { to = in_section; ops = zs }) (append-nil out.ops)

pub adding-nil : (out : Output) → adding [] out ≡ out
adding-nil out = adding_nothing_to out.to out

pub adding-unary :
    (op : Operation) (xs : List Operation) (ts : List Token) (out : Output)
    → added op (ts, adding xs out) ≡ some (ts, adding (xs ++ op ∷ []) out)
adding-unary op xs ts out = ap (λ o. some (ts, o)) (adding-adding xs (op ∷ []) out)

pub adding-binary :
    (op : Operation) (xs ys : List Operation) (ts : List Token) (out : Output)
    → added op (ts, adding ys (adding xs out)) ≡ some (ts, adding (xs ++ ys ++ op ∷ []) out)
adding-binary op xs ys ts out =
    ap (λ o. added op (ts, o)) (adding-adding xs ys out) ∙ adding-unary op (xs ++ ys) ts out

pub term_rest-EndsTerm :
    (n : ℕ) (ts : List Token) (out : Output)
    → EndsTerm ts
    → 1 ≤ n
    → term_rest n ts out ≡ some (ts, out)
unfolding term_rest
term_rest-EndsTerm zero ts out h k = absurd (omega (arith, k))
term_rest-EndsTerm (suc n) [] out h k = refl
term_rest-EndsTerm (suc n) (s_ast ∷ ts) out h k = cc
term_rest-EndsTerm (suc n) (s_slash ∷ ts) out h k = cc
term_rest-EndsTerm (suc n) (s_div ∷ ts) out h k = cc
term_rest-EndsTerm (suc n) (s_mod ∷ ts) out h k = cc
term_rest-EndsTerm (suc n) (s_ampersand ∷ ts) out h k = cc
term_rest-EndsTerm (suc n) (_ ∷ ts) out h k = refl

pub simple_rest-EndsSimple :
    (n : ℕ) (ts : List Token) (out : Output)
    → EndsSimple ts
    → 1 ≤ n
    → simple_rest n ts out ≡ some (ts, out)
unfolding simple_rest
simple_rest-EndsSimple zero ts out h k = absurd (omega (arith, k))
simple_rest-EndsSimple (suc n) [] out h k = refl
simple_rest-EndsSimple (suc n) (s_plus ∷ ts) out (h, l) k = cc
simple_rest-EndsSimple (suc n) (s_minus ∷ ts) out (h, l) k = cc
simple_rest-EndsSimple (suc n) (s_barc ∷ ts) out (h, l) k = cc
simple_rest-EndsSimple (suc n) (_ ∷ ts) out h k = refl

pub relation-Ends :
    (n : ℕ) (ts : List Token) (out : Output) → Ends ts → 1 ≤ n → relation n ts out ≡ some (ts, out)
unfolding relation
relation-Ends zero ts out h k = absurd (omega (arith, k))
relation-Ends (suc n) [] out h k = refl
relation-Ends (suc n) (s_eql ∷ ts) out (h, l) k = cc
relation-Ends (suc n) (s_neq ∷ ts) out (h, l) k = cc
relation-Ends (suc n) (s_lss ∷ ts) out (h, l) k = cc
relation-Ends (suc n) (s_leq ∷ ts) out (h, l) k = cc
relation-Ends (suc n) (s_gtr ∷ ts) out (h, l) k = cc
relation-Ends (suc n) (s_geq ∷ ts) out (h, l) k = cc
relation-Ends (suc n) (s_left_shift ∷ ts) out (h, l) k = cc
relation-Ends (suc n) (s_right_shift ∷ ts) out (h, l) k = cc
relation-Ends (suc n) (_ ∷ ts) out h k = refl

pub term_rest-mul_token :
    (n : ℕ) (op : MulOperator) (ts : List Token) (out : Output)
    → term_rest (suc n) (mul_token op ∷ ts) out ≡ another_factor n (mul_op op) ts out
unfolding term_rest
term_rest-mul_token n times ts out = refl
term_rest-mul_token n over ts out = refl
term_rest-mul_token n div_word ts out = refl
term_rest-mul_token n mod_word ts out = refl
term_rest-mul_token n and_sign ts out = refl

pub simple_rest-add_token :
    (n : ℕ) (op : AddOperator) (ts : List Token) (out : Output)
    → simple_rest (suc n) (add_token op ∷ ts) out ≡ another_term n (add_op op) ts out
unfolding simple_rest
simple_rest-add_token n plus ts out = refl
simple_rest-add_token n minus ts out = refl
simple_rest-add_token n or_sign ts out = refl

pub relation-relation_token :
    (n : ℕ) (op : Relation) (ts : List Token) (out : Output)
    → relation (suc n) (relation_token op ∷ ts) out
      ≡ (parse_simple_expression n false ts out >>= added (op_binary (relation_op op)))
unfolding relation
relation-relation_token n equal ts out = refl
relation-relation_token n unequal ts out = refl
relation-relation_token n less ts out = refl
relation-relation_token n less_equal ts out = refl
relation-relation_token n greater ts out = refl
relation-relation_token n greater_equal ts out = refl
relation-relation_token n shifted_left ts out = refl
relation-relation_token n shifted_right ts out = refl

pub parse_factor-prefix_token :
    (n : ℕ) (is_local : Bool) (p : Prefix) (ts : List Token) (out : Output)
    → parse_factor (suc n) is_local (prefix_token p ∷ ts) out
      ≡ (parse_factor n false ts out >>= added (op_unary (prefix_op p)))
unfolding parse_factor
parse_factor-prefix_token n is_local not_sign ts out = refl
parse_factor-prefix_token n is_local low_sign ts out = refl
parse_factor-prefix_token n is_local high_sign ts out = refl
parse_factor-prefix_token n is_local bank_sign ts out = refl

-- A factor begins with no sign.
pub parse_simple-print_factor :
    (n : ℕ) (is_local : Bool) (f : Factor) (ts : List Token) (out : Output)
    → parse_simple_expression (suc n) is_local (print_factor f ts) out
      ≡ sum n is_local (print_factor f ts) out
unfolding parse_simple_expression print_factor
parse_simple-print_factor n is_local (number m) ts out = refl
parse_simple-print_factor n is_local (quoted pointer cs) ts out = refl
parse_simple-print_factor n is_local (parens e) ts out = refl
parse_simple-print_factor n is_local (prefixed not_sign f) ts out = refl
parse_simple-print_factor n is_local (prefixed low_sign f) ts out = refl
parse_simple-print_factor n is_local (prefixed high_sign f) ts out = refl
parse_simple-print_factor n is_local (prefixed bank_sign f) ts out = refl

pub print_terms-EndsTerm :
    (xs : Terms) (ts : List Token) → EndsTerm ts → EndsTerm (print_terms xs ts)
unfolding print_terms
print_terms-EndsTerm no_terms ts h = h
print_terms-EndsTerm (terms plus x xs) ts h = refl
print_terms-EndsTerm (terms minus x xs) ts h = refl
print_terms-EndsTerm (terms or_sign x xs) ts h = refl

pub relation_token-EndsSimple :
    (op : Relation) (ts : List Token) → EndsSimple (relation_token op ∷ ts)
relation_token-EndsSimple equal ts = (refl, refl)
relation_token-EndsSimple unequal ts = (refl, refl)
relation_token-EndsSimple less ts = (refl, refl)
relation_token-EndsSimple less_equal ts = (refl, refl)
relation_token-EndsSimple greater ts = (refl, refl)
relation_token-EndsSimple greater_equal ts = (refl, refl)
relation_token-EndsSimple shifted_left ts = (refl, refl)
relation_token-EndsSimple shifted_right ts = (refl, refl)
