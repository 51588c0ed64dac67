-- ===== src/Parser/Rules.antt =====
-- parse_factor, parse_term, parse_simple_expression and parse_expression of as-c/src/parser.c,
-- from the tokens of the scanner to the operations of the interpreter.
use tools.Base.{
  ℕ, zero, suc, ◌+◌, Bool, true, false, take, List, [], ◌∷◌, ◌++◌, Option, none, some, ◌>>=◌,
}
use tools.Interp.Object.{int_object, string_object, real_object}
use tools.Interp.Stack.{
  BinaryOp, op_add, op_sub, op_mul, op_div, op_idiv, op_mod, op_and, op_or, op_equal, op_notequal,
  op_greaterthan, op_greaterthanequal, op_lessthan, op_lessthanequal, op_leftshift, op_rightshift,
  op_neg, op_not, op_lowbyte, op_highbyte, op_bankbyte,
}
use tools.Interp.Run.{Operation, op_push, op_binary, op_unary}

-- The symbols with what the parser finds in the scanner's globals: `s_integer` is sINTEGER or sCHAR
-- with the ival that goes into a long, `s_real` has the bits of the double that ival becomes,
-- `s_string` the address of the copy of id and its text, `s_ident` the text of id. `s_period` has the
-- text that is in id when a name behind it is stored, which is two symbols later. `s_other` is a
-- symbol that no expression holds.
pub data Token : Type 0 where
  s_integer s_real : ℕ → Token
  s_string : ℕ → List ℕ → Token
  s_ident s_period : List ℕ → Token
  s_lparen s_rparen s_not s_caret s_ast s_slash s_div s_mod s_ampersand : Token
  s_plus s_minus s_barc s_eql s_neq s_lss s_leq s_gtr s_geq s_left_shift s_right_shift : Token
  s_comma s_statesep s_other : Token

-- An operation of the interpreter's model, or OpPushVar with the is_local and the string_val of its
-- value.
pub data Compiled : Type 0 where
  plain : Operation → Compiled
  push_var : Bool → List ℕ → Compiled

-- where interp_add puts an operation: nowhere if there is no section, else into the macro that is
-- being defined or into the section
pub data Destination : Type 0 where
  nowhere in_macro in_section : Destination

-- the operations of the section and of the macro, and as_error's count
pub record Output : Type 0 where
  pub to : Destination
  pub ops : List Compiled
  pub macro_ops : List Compiled
  pub error_count : ℕ

abbrev pub put : Destination → List Compiled → Output → Output
put nowhere xs out = out
put in_macro xs out = record out { macro_ops = out.macro_ops ++ xs }
put in_section xs out = record out { ops = out.ops ++ xs }

-- the tokens that are left, the first of them the current symbol, and the output
abbrev pub Result : Type 0
Result = Option (List Token × Output)

abbrev pub add_compiled : Compiled → Output → Output
add_compiled op out = put out.to (op ∷ []) out

abbrev pub interp_add : Operation → Output → Output
interp_add op out = add_compiled (plain op) out

abbrev pub as_error : Output → Output
as_error out = record out { error_count = out.error_count + 1 }

abbrev pub added : Operation → List Token × Output → Result
added op (ts, out) = some (ts, interp_add op out)

-- behind the expression in parentheses
abbrev pub close_paren : List Token × Output → Result
close_paren (s_rparen ∷ ts, out) = some (ts, out)
close_paren (ts, out) = some (ts, as_error out)

-- expect(sym, sIDENT)
abbrev pub expect_ident : List Token → Output → List Token × Output
expect_ident [] out = ([], as_error out)
expect_ident (s_ident name ∷ ts) out = (ts, out)
expect_ident (_ ∷ ts) out = (ts, as_error out)

abbrev pub local_var : List ℕ → List Token × Output → Result
local_var name (ts, out) = some (ts, add_compiled (push_var true name) out)

-- what snprintf leaves in its buffer of 128 bytes
abbrev pub qualified : List ℕ → List ℕ → List ℕ
qualified name part = take 127 (name ++ b'.' ∷ part)

-- The loop on the names behind an identifier, and OpPushVar of the name that they make.
unfoldable pub dotted : List ℕ → List Token → Output → Result
dotted name (s_period _ ∷ s_ident part ∷ ts) out = dotted (qualified name part) ts out
dotted name (s_period _ ∷ ts) out = some (ts, add_compiled (push_var false name) out)
dotted name ts out = some (ts, add_compiled (push_var false name) out)

-- The case sIDENT; a local name takes no others behind it.
abbrev pub identifier : Bool → List ℕ → List Token → Output → Result
identifier true name ts out = some (ts, add_compiled (push_var true name) out)
identifier false name ts out = dotted name ts out

-- Each call costs a unit of fuel; `none` is a lack of it. At the end of the file scanner_get stays
-- there. The loops of parse_term and parse_simple_expression are `term_rest` and `simple_rest`.
unfoldable mutual
  pub parse_factor : ℕ → Bool → List Token → Output → Result
  parse_factor zero is_local ts out = none
  parse_factor (suc f) is_local [] out = some ([], as_error out)
  parse_factor (suc f) is_local (s_integer n ∷ ts) out =
      some (ts, interp_add (op_push (int_object n)) out)
  parse_factor (suc f) is_local (s_real bits ∷ ts) out =
      some (ts, interp_add (op_push (real_object bits)) out)
  parse_factor (suc f) is_local (s_string pointer cs ∷ ts) out =
      some (ts, interp_add (op_push (string_object pointer cs)) out)
  parse_factor (suc f) is_local (s_period name ∷ ts) out = local_var name (expect_ident ts out)
  parse_factor (suc f) is_local (s_ident name ∷ ts) out = identifier is_local name ts out
  parse_factor (suc f) is_local (s_lparen ∷ ts) out =
      parse_expression f false ts out >>= close_paren
  parse_factor (suc f) is_local (s_not ∷ ts) out =
      parse_factor f false ts out >>= added (op_unary op_not)
  parse_factor (suc f) is_local (s_lss ∷ ts) out =
      parse_factor f false ts out >>= added (op_unary op_lowbyte)
  parse_factor (suc f) is_local (s_gtr ∷ ts) out =
      parse_factor f false ts out >>= added (op_unary op_highbyte)
  parse_factor (suc f) is_local (s_caret ∷ ts) out =
      parse_factor f false ts out >>= added (op_unary op_bankbyte)
  parse_factor (suc f) is_local (_ ∷ ts) out = some (ts, as_error out)

  pub parse_term : ℕ → Bool → List Token → Output → Result
  parse_term zero is_local ts out = none
  parse_term (suc f) is_local ts out =
      parse_factor f is_local ts out >>= λ (ts', out'). term_rest f ts' out'

  pub term_rest : ℕ → List Token → Output → Result
  term_rest zero ts out = none
  term_rest (suc f) (s_ast ∷ ts) out = another_factor f op_mul ts out
  term_rest (suc f) (s_slash ∷ ts) out = another_factor f op_div ts out
  term_rest (suc f) (s_div ∷ ts) out = another_factor f op_idiv ts out
  term_rest (suc f) (s_mod ∷ ts) out = another_factor f op_mod ts out
  term_rest (suc f) (s_ampersand ∷ ts) out = another_factor f op_and ts out
  term_rest (suc f) ts out = some (ts, out)

  pub another_factor : ℕ → BinaryOp → List Token → Output → Result
  another_factor zero op ts out = none
  another_factor (suc f) op ts out =
      parse_factor f false ts out >>= added (op_binary op) >>= λ (ts', out'). term_rest f ts' out'

  pub parse_simple_expression : ℕ → Bool → List Token → Output → Result
  parse_simple_expression zero is_local ts out = none
  parse_simple_expression (suc f) is_local (s_plus ∷ ts) out = sum f is_local ts out
  parse_simple_expression (suc f) is_local (s_minus ∷ ts) out =
      sum f is_local ts out >>= added (op_unary op_neg)
  parse_simple_expression (suc f) is_local ts out = sum f is_local ts out

  pub sum : ℕ → Bool → List Token → Output → Result
  sum zero is_local ts out = none
  sum (suc f) is_local ts out =
      parse_term f is_local ts out >>= λ (ts', out'). simple_rest f ts' out'

  pub simple_rest : ℕ → List Token → Output → Result
  simple_rest zero ts out = none
  simple_rest (suc f) (s_plus ∷ ts) out = another_term f op_add ts out
  simple_rest (suc f) (s_minus ∷ ts) out = another_term f op_sub ts out
  simple_rest (suc f) (s_barc ∷ ts) out = another_term f op_or ts out
  simple_rest (suc f) ts out = some (ts, out)

  pub another_term : ℕ → BinaryOp → List Token → Output → Result
  another_term zero op ts out = none
  another_term (suc f) op ts out =
      parse_term f false ts out >>= added (op_binary op) >>= λ (ts', out'). simple_rest f ts' out'

  pub parse_expression : ℕ → Bool → List Token → Output → Result
  parse_expression zero is_local ts out = none
  parse_expression (suc f) is_local ts out =
      parse_simple_expression f is_local ts out >>= λ (ts', out'). relation f ts' out'

  pub relation : ℕ → List Token → Output → Result
  relation zero ts out = none
  relation (suc f) (s_eql ∷ ts) out =
      parse_simple_expression f false ts out >>= added (op_binary op_equal)
  relation (suc f) (s_neq ∷ ts) out =
      parse_simple_expression f false ts out >>= added (op_binary op_notequal)
  relation (suc f) (s_lss ∷ ts) out =
      parse_simple_expression f false ts out >>= added (op_binary op_lessthan)
  relation (suc f) (s_leq ∷ ts) out =
      parse_simple_expression f false ts out >>= added (op_binary op_lessthanequal)
  relation (suc f) (s_gtr ∷ ts) out =
      parse_simple_expression f false ts out >>= added (op_binary op_greaterthan)
  relation (suc f) (s_geq ∷ ts) out =
      parse_simple_expression f false ts out >>= added (op_binary op_greaterthanequal)
  relation (suc f) (s_left_shift ∷ ts) out =
      parse_simple_expression f false ts out >>= added (op_binary op_leftshift)
  relation (suc f) (s_right_shift ∷ ts) out =
      parse_simple_expression f false ts out >>= added (op_binary op_rightshift)
  relation (suc f) ts out = some (ts, out)
