-- ===== src/Parser/Syntax.antt =====
-- The grammar in the comments of as-c/src/parser.c: expressions, their tokens and their trees.
use tools.Base.{ℕ, ◌+◌, List, ◌∷◌}
use tools.Interp.Object.{int_object, string_object}
use tools.Interp.Stack.{
  BinaryOp, op_add, op_sub, op_mul, op_div, op_idiv, op_mod, op_and, op_or, op_equal, op_notequal,
  op_greaterthan, op_greaterthanequal, op_lessthan, op_lessthanequal, op_leftshift, op_rightshift,
  UnaryOp, op_neg, op_not, op_lowbyte, op_highbyte, op_bankbyte,
}
use tools.Interp.Postfix.{Expr, literal, unary, binary}
use tools.Parser.Rules.{
  Token, s_integer, s_string, s_lparen, s_rparen, s_not, s_caret, s_ast, s_slash, s_div, s_mod,
  s_ampersand, s_plus, s_minus, s_barc, s_eql, s_neq, s_lss, s_leq, s_gtr, s_geq, s_left_shift,
  s_right_shift,
}

pub data Prefix : Type 0 where
  not_sign low_sign high_sign bank_sign : Prefix

pub data MulOperator : Type 0 where
  times over div_word mod_word and_sign : MulOperator

pub data AddOperator : Type 0 where
  plus minus or_sign : AddOperator

pub data Relation : Type 0 where
  equal unequal less less_equal greater greater_equal shifted_left shifted_right : Relation

pub data Sign : Type 0 where
  no_sign positive negative : Sign

mutual
  pub data Factor : Type 0 where
    number : ℕ → Factor
    quoted : ℕ → List ℕ → Factor
    parens : Expression → Factor
    prefixed : Prefix → Factor → Factor

  pub data Factors : Type 0 where
    no_factors : Factors
    factors : MulOperator → Factor → Factors → Factors

  pub data Term : Type 0 where
    term : Factor → Factors → Term

  pub data Terms : Type 0 where
    no_terms : Terms
    terms : AddOperator → Term → Terms → Terms

  pub data SimpleExpression : Type 0 where
    simple : Sign → Term → Terms → SimpleExpression

  pub data Expression : Type 0 where
    only : SimpleExpression → Expression
    related : Relation → SimpleExpression → SimpleExpression → Expression

abbrev pub prefix_token : Prefix → Token
prefix_token not_sign = s_not
prefix_token low_sign = s_lss
prefix_token high_sign = s_gtr
prefix_token bank_sign = s_caret

abbrev pub prefix_op : Prefix → UnaryOp
prefix_op not_sign = op_not
prefix_op low_sign = op_lowbyte
prefix_op high_sign = op_highbyte
prefix_op bank_sign = op_bankbyte

abbrev pub mul_token : MulOperator → Token
mul_token times = s_ast
mul_token over = s_slash
mul_token div_word = s_div
mul_token mod_word = s_mod
mul_token and_sign = s_ampersand

abbrev pub mul_op : MulOperator → BinaryOp
mul_op times = op_mul
mul_op over = op_div
mul_op div_word = op_idiv
mul_op mod_word = op_mod
mul_op and_sign = op_and

abbrev pub add_token : AddOperator → Token
add_token plus = s_plus
add_token minus = s_minus
add_token or_sign = s_barc

abbrev pub add_op : AddOperator → BinaryOp
add_op plus = op_add
add_op minus = op_sub
add_op or_sign = op_or

abbrev pub relation_token : Relation → Token
relation_token equal = s_eql
relation_token unequal = s_neq
relation_token less = s_lss
relation_token less_equal = s_leq
relation_token greater = s_gtr
relation_token greater_equal = s_geq
relation_token shifted_left = s_left_shift
relation_token shifted_right = s_right_shift

abbrev pub relation_op : Relation → BinaryOp
relation_op equal = op_equal
relation_op unequal = op_notequal
relation_op less = op_lessthan
relation_op less_equal = op_lessthanequal
relation_op greater = op_greaterthan
relation_op greater_equal = op_greaterthanequal
relation_op shifted_left = op_leftshift
relation_op shifted_right = op_rightshift

abbrev pub print_sign : Sign → List Token → List Token
print_sign no_sign ts = ts
print_sign positive ts = s_plus ∷ ts
print_sign negative ts = s_minus ∷ ts

-- the tokens in front of others
unfoldable mutual
  pub print_factor : Factor → List Token → List Token
  print_factor (number n) ts = s_integer n ∷ ts
  print_factor (quoted pointer cs) ts = s_string pointer cs ∷ ts
  print_factor (parens e) ts = s_lparen ∷ print_expression e (s_rparen ∷ ts)
  print_factor (prefixed p f) ts = prefix_token p ∷ print_factor f ts

  pub print_factors : Factors → List Token → List Token
  print_factors no_factors ts = ts
  print_factors (factors op f fs) ts = mul_token op ∷ print_factor f (print_factors fs ts)

  pub print_term : Term → List Token → List Token
  print_term (term f fs) ts = print_factor f (print_factors fs ts)

  pub print_terms : Terms → List Token → List Token
  print_terms no_terms ts = ts
  print_terms (terms op x xs) ts = add_token op ∷ print_term x (print_terms xs ts)

  pub print_simple : SimpleExpression → List Token → List Token
  print_simple (simple sign x xs) ts = print_sign sign (print_term x (print_terms xs ts))

  pub print_expression : Expression → List Token → List Token
  print_expression (only x) ts = print_simple x ts
  print_expression (related op x y) ts = print_simple x (relation_token op ∷ print_simple y ts)

abbrev pub signed : Sign → Expr → Expr
signed negative x = unary op_neg x
signed _ x = x

-- Operators of one kind group to the left; a sign is that of the whole sum.
unfoldable mutual
  pub tree_of_factor : Factor → Expr
  tree_of_factor (number n) = literal (int_object n)
  tree_of_factor (quoted pointer cs) = literal (string_object pointer cs)
  tree_of_factor (parens e) = tree_of e
  tree_of_factor (prefixed p f) = unary (prefix_op p) (tree_of_factor f)

  pub multiplied : Factors → Expr → Expr
  multiplied no_factors x = x
  multiplied (factors op f fs) x = multiplied fs (binary (mul_op op) x (tree_of_factor f))

  pub tree_of_term : Term → Expr
  tree_of_term (term f fs) = multiplied fs (tree_of_factor f)

  pub summed : Terms → Expr → Expr
  summed no_terms x = x
  summed (terms op y ys) x = summed ys (binary (add_op op) x (tree_of_term y))

  pub tree_of_simple : SimpleExpression → Expr
  tree_of_simple (simple sign x xs) = signed sign (summed xs (tree_of_term x))

  pub tree_of : Expression → Expr
  tree_of (only x) = tree_of_simple x
  tree_of (related op x y) = binary (relation_op op) (tree_of_simple x) (tree_of_simple y)

-- the fuel that the calls for an expression need
unfoldable mutual
  pub cost_of_factor : Factor → ℕ
  cost_of_factor (number n) = 1
  cost_of_factor (quoted pointer cs) = 1
  cost_of_factor (parens e) = 1 + cost e
  cost_of_factor (prefixed p f) = 1 + cost_of_factor f

  pub cost_of_factors : Factors → ℕ
  cost_of_factors no_factors = 1
  cost_of_factors (factors op f fs) = 2 + (cost_of_factor f + cost_of_factors fs)

  pub cost_of_term : Term → ℕ
  cost_of_term (term f fs) = 1 + (cost_of_factor f + cost_of_factors fs)

  pub cost_of_terms : Terms → ℕ
  cost_of_terms no_terms = 1
  cost_of_terms (terms op x xs) = 2 + (cost_of_term x + cost_of_terms xs)

  pub cost_of_simple : SimpleExpression → ℕ
  cost_of_simple (simple sign x xs) = 2 + (cost_of_term x + cost_of_terms xs)

  pub cost : Expression → ℕ
  cost (only x) = 2 + cost_of_simple x
  cost (related op x y) = 2 + (cost_of_simple x + cost_of_simple y)
