-- ===== src/Parser/Lists.antt =====
-- parse_list, parse_data and parse_text of as-c/src/parser.c.
use tools.Base.{false, ℕ, zero, suc, List, ◌∷◌, Option, none, some, ◌>>=◌}
use tools.Cpu.{Modifier, m_byte, m_word, m_absolute, m_long, m_float, m_direct, m_zero, m_bit7}
use tools.Interp.Text.{op_text, op_text_bit7, op_text_len, op_text_zero}
use tools.Interp.Run.{Operation, op_byte, op_word, op_nothing, op_texts, op_fill}
use tools.Parser.Rules.{Token, s_comma, s_statesep, Output, Result, interp_add, parse_expression}

-- the number of expressions, the tokens that are left and the output
abbrev pub Counted : Type 0
Counted = Option (ℕ × List Token × Output)

-- `list_item` is the second test of the loop's body, `list_more` the loop's condition.
unfoldable mutual
  pub parse_list : ℕ → ℕ → List Token → Output → Counted
  parse_list zero c ts out = none
  parse_list (suc f) c (s_comma ∷ ts) out = list_item f c ts out
  parse_list (suc f) c ts out = list_item f c ts out

  pub list_item : ℕ → ℕ → List Token → Output → Counted
  list_item zero c ts out = none
  list_item (suc f) c (s_statesep ∷ ts) out = some (c, s_statesep ∷ ts, out)
  list_item (suc f) c ts out =
      parse_expression f false ts out >>= λ (us, o). list_more f (suc c) us o

  pub list_more : ℕ → ℕ → List Token → Output → Counted
  list_more zero c ts out = none
  list_more (suc f) c (s_comma ∷ ts) out = parse_list f c (s_comma ∷ ts) out
  list_more (suc f) c ts out = some (c, ts, out)

-- OpLong, OpFloat and OpDouble are `op_nothing`; the modifier of .double takes the default.
unfoldable pub data_op : Modifier → ℕ → Operation
data_op m_byte n = op_byte n
data_op m_word n = op_word n
data_op m_absolute n = op_word n
data_op m_long n = op_nothing
data_op m_float n = op_nothing
data_op m_direct n = op_nothing
data_op m_zero n = op_byte n
data_op m_bit7 n = op_byte n
data_op _ n = op_byte n

unfoldable pub text_op : Modifier → ℕ → Operation
text_op m_long n = op_texts op_text_len n
text_op m_zero n = op_texts op_text_zero n
text_op m_bit7 n = op_texts op_text_bit7 n
text_op _ n = op_texts op_text n

abbrev pub add_counted : (ℕ → Operation) → ℕ × List Token × Output → Result
add_counted op (zero, ts, out) = some (ts, out)
add_counted op (suc n, ts, out) = some (ts, interp_add (op (suc n)) out)

unfoldable pub parse_data : ℕ → Modifier → List Token → Output → Result
parse_data f modifier ts out = parse_list f 0 ts out >>= add_counted (data_op modifier)

unfoldable pub parse_text : ℕ → Modifier → List Token → Output → Result
parse_text f modifier ts out = parse_list f 0 ts out >>= add_counted (text_op modifier)

-- Each of the cases adds OpFillByte, OpFillWord or OpFillLong, which one function performs.
unfoldable pub parse_fill : ℕ → Modifier → List Token → Output → Result
parse_fill f modifier ts out = parse_list f 0 ts out >>= add_counted op_fill
