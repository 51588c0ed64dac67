-- ===== src/Interp/Tests.antt =====
-- The theorems on the interpreter at concrete operations.
use tools.Base.{ℕ, ◌≡◌, refl, true, false, List, [], ◌∷◌, ◌++◌, some}
use tools.Cpu.{lda, absolute, m_none, Instr}
use tools.Codegen.State.{globals}
use tools.Codegen.Mode.{codegen_params}
use tools.Codegen.MachineCode.{machine_code}
use tools.Interp.Object.{Object, int_object, string_object, object_mul}
use tools.Interp.Stack.{op_mul, combine}
use tools.Interp.Emit.{first_operand}
use tools.Interp.Text.{op_text_zero}
use tools.Interp.Run.{
  Operation, op_push, op_emit, op_texts, op_if_begin, op_scope_end, is_true, interp_interp, step,
  execute,
}
use tools.Interp.Postfix.{Expr, literal, binary, postfix, pushed, interp_interp-postfix}
use tools.Interp.Assemble.{postfix_all, Assembles}
use tools.Interp.Lines.{emit_instr-Assembles, emit_text-Assembles}
use tools.Interp.Branches.{if_else, inside, behind, interp_interp-if_else, interp_interp-nested_if}
use tools.Interp.Sample.{target, start}

abbrev product : Expr
product = binary op_mul (literal (int_object 6)) (literal (int_object 7))

interp_interp-postfix_example :
    interp_interp target (postfix product ++ []) start ≡ some (pushed start (int_object 42))
unfolding interp_interp combine object_mul
interp_interp-postfix_example = interp_interp-postfix target product [] start refl

abbrev load : Instr
load = record { opcode = lda; mode = absolute; modifier = m_none }

emit_instr-Assembles_example :
    Assembles target
      (postfix product ++ op_emit load ∷ [])
      start
      (machine_code target.machine load 42 0 0 (globals start.codegen))
unfolding combine object_mul first_operand
emit_instr-Assembles_example =
    emit_instr-Assembles target product (int_object 42) load start refl
      (unfold combine object_mul in refl) (unfold codegen_params in refl)

-- `a\n\t` at the address 0x1000, five characters with the backslashes
abbrev line_end_string : Object
line_end_string = string_object 0x1000 (0x61 ∷ 0x5c ∷ 0x6e ∷ 0x5c ∷ 0x74 ∷ [])

abbrev line_end : Expr
line_end = literal line_end_string

emit_text-Assembles_example :
    Assembles target
      (postfix_all (line_end ∷ []) ++ op_texts op_text_zero 1 ∷ [])
      start
      (0x61 ∷ 0x0a ∷ 0x09 ∷ 0 ∷ [])
emit_text-Assembles_example =
    emit_text-Assembles target (line_end ∷ []) (line_end_string ∷ []) start
      (0x61 ∷ 0x0a ∷ 0x09 ∷ []) op_text_zero refl refl refl refl

abbrev push : ℕ → List Operation
push n = op_push (int_object n) ∷ []

interp_interp-if_else_example :
    interp_interp target (if_else product (push 1) (push 2) []) start
    ≡ some (behind false start (pushed (inside true start start) (int_object 1)))
unfolding interp_interp step execute is_true
interp_interp-if_else_example =
    interp_interp-if_else target start refl refl product (int_object 42)
      (unfold combine object_mul in refl) (push 1) (push 2) [] (refl, tt) (refl, tt)

abbrev zero_value : Expr
zero_value = literal (int_object 0)

interp_interp-nested_if_example :
    interp_interp target
      (postfix zero_value
        ++ (op_if_begin
            ∷ ([] ++ postfix product ++ (op_if_begin ∷ (push 1 ++ (op_scope_end ∷ push 2))))))
      start
    ≡ some (pushed (behind false start start) (int_object 2))
unfolding interp_interp step execute is_true
interp_interp-nested_if_example =
    interp_interp-nested_if target start refl refl zero_value (int_object 0) refl product []
      (push 1) (push 2) (unfold is_true in refl) (refl, (refl, (refl, tt))) (refl, tt)
