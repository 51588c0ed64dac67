-- ===== src/Codegen/Gen.antt =====
-- codegen_gen: the choice of the mode, then the table of the machine in the ELF header.
use tools.Base.{ℕ}
use tools.Cpu.{
  Instr, AddrMode, Machine, em_816, em_c02, em_02, em_rc02, em_rc01, em_rc19, em_other, OpCode,
}
use tools.Codegen.State.{State}
use tools.Codegen.Mode.{resolve}
use tools.Codegen.Wdc816.{gen_816}
use tools.Codegen.Wdc65C02.{gen_c02}
use tools.Codegen.Mos6502.{gen_02}
use tools.Codegen.Rockwell65C02.{gen_rc02}
use tools.Codegen.RockwellC19.{gen_rc19}

-- A machine with no table emits nothing and reports nothing.
unfoldable pub dispatch : Machine → OpCode → AddrMode → ℕ → ℕ → ℕ → State → State
dispatch em_816 op mode value1 value2 value3 = gen_816 op mode value1 value2
dispatch em_c02 op mode value1 value2 value3 = gen_c02 op mode value1 value2
dispatch em_02 op mode value1 value2 value3 = gen_02 op mode value1 value2
dispatch em_rc02 op mode value1 value2 value3 = gen_rc02 op mode value1 value2 value3
dispatch em_rc01 op mode value1 value2 value3 = gen_rc02 op mode value1 value2 value3
dispatch em_rc19 op mode value1 value2 value3 = gen_rc19 op mode value1 value2 value3
dispatch em_other op mode value1 value2 value3 = λ s. s

unfoldable pub codegen_gen : Machine → Instr → ℕ → ℕ → ℕ → State → State
unfolding dispatch
codegen_gen machine instr value1 value2 value3 s =
    dispatch machine instr.opcode (resolve instr.mode instr.modifier value1) value1 value2 value3 s
