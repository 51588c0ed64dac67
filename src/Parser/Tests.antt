-- ===== src/Parser/Tests.antt =====
-- The theorems on the parser at concrete tokens.
use tools.Base.{◌≡◌, refl, false, List, [], ◌∷◌, some, arith}
use tools.Cpu.{m_byte}
use tools.Interp.Object.{int_object, object_add, object_mul, object_neg}
use tools.Interp.Stack.{op_add, op_neg, combine, change}
use tools.Interp.Run.{Operation, op_push, op_binary, op_unary}
use tools.Interp.Assemble.{Assembles}
use tools.Interp.Sample.{target, start}
use tools.Parser.Rules.{
  Token, s_integer, s_ident, s_period, s_ast, s_plus, s_minus, s_statesep, in_section, Output,
  parse_expression,
}
use tools.Parser.Syntax.{
  number, no_factors, factors, term, no_terms, terms, times, plus, simple, no_sign, negative,
  Expression, only, print_factor, print_factors, print_term, print_terms, print_simple,
  print_expression, tree_of_factor, multiplied, tree_of_term, summed, tree_of_simple, tree_of,
  cost_of_factor, cost_of_factors, cost_of_term, cost_of_terms, cost_of_simple, cost,
}
use tools.Parser.Termination.{Stops, parse_expression-Stops}
use tools.Parser.RoundTrip.{parse_expression-print}
use tools.Parser.Lists.{parse_data}
use tools.Parser.Ends.{adding}
use tools.Parser.Pipeline.{print_list, parse_data-Assembles}

abbrev nothing : Output
nothing = record { to = in_section; ops = []; macro_ops = []; error_count = 0 }

abbrev unfinished : List Token
unfinished = s_ident (0x61 ∷ []) ∷ s_period [] ∷ s_plus ∷ s_ast ∷ []

parse_expression-Stops_example : Stops 4 (parse_expression 25 false unfinished nothing)
parse_expression-Stops_example = parse_expression-Stops 25 false unfinished nothing (omega arith)

-- 1+2*3 and -4+5
abbrev sum_of_product : Expression
sum_of_product = only (
    simple no_sign (term (number 1) no_factors)
      (terms plus (term (number 2) (factors times (number 3) no_factors)) no_terms))

abbrev minus_sum : Expression
minus_sum = only (
    simple negative (term (number 4) no_factors) (terms plus (term (number 5) no_factors) no_terms))

parse_expression-print_example :
    parse_expression 30 false (s_minus ∷ s_integer 4 ∷ s_plus ∷ s_integer 5 ∷ []) nothing
    ≡ some (
      [],
      adding
          (op_push (int_object 4)
            ∷ op_push (int_object 5)
            ∷ op_binary op_add
            ∷ op_unary op_neg
            ∷ [])
          nothing,
    )
unfolding print_expression print_simple print_term print_terms print_factors print_factor tree_of
    tree_of_simple tree_of_term summed multiplied tree_of_factor
parse_expression-print_example =
    parse_expression-print minus_sum 30 false [] nothing ((refl, refl), refl)
      (unfold cost cost_of_simple cost_of_term cost_of_terms cost_of_factors cost_of_factor in
        omega arith)

parse_data-Assembles_example :
    (ops : List Operation) × (parse_data 60 m_byte
        (print_list sum_of_product (minus_sum ∷ []) (s_statesep ∷ []))
        nothing
      ≡ some (s_statesep ∷ [], adding ops nothing))
    × Assembles target ops start (7 ∷ 0xf7 ∷ [])
parse_data-Assembles_example =
    parse_data-Assembles target sum_of_product (minus_sum ∷ []) 60 [] nothing
      (int_object 7 ∷ int_object 0xffff_ffff_ffff_fff7 ∷ []) (7 ∷ 0xf7 ∷ []) start
      (unfold cost cost_of_simple cost_of_term cost_of_terms cost_of_factors cost_of_factor in
        omega arith)
      refl
      (unfold tree_of tree_of_simple tree_of_term summed multiplied tree_of_factor combine change
          object_add object_mul object_neg in
        refl)
      refl
