-- ===== src/Disasm/Tests.antt =====
-- The theorem on the disassembler at LDA with an absolute address.
use tools.Base.{◌≡◌, refl, true, false, [], ◌∷◌, some}
use tools.Cpu.{lda, absolute, m_none, Instr}
use tools.Codegen.Mode.{resolve, is_dp}
use tools.Codegen.Encoding.{encode_all, encoding}
use tools.Codegen.MachineCode.{machine_code, table, code}
use tools.Codegen.Wdc816
use tools.Interp.Sample.{empty_section}
use tools.Disasm.Decode.{ProcessorStatus, labelled, disassemble_instruction}
use tools.Disasm.Whole.{decoded, disassemble-machine_code}

abbrev native_status : ProcessorStatus
native_status = record { m_flag = true; x_flag = true; emulation_mode = false }

abbrev load : Instr
load = record { opcode = lda; mode = absolute; modifier = m_none }

-- behind a NOP
disassemble-machine_code_example :
    disassemble_instruction native_status (0xea ∷ 0xad ∷ 0x34 ∷ 0x12 ∷ []) 1
    ≡ some (decoded 1 0xad absolute (0x34 ∷ 0x12 ∷ []), native_status)
disassemble-machine_code_example =
    disassemble-machine_code load 0x1234 0 0 empty_section native_status 0xad (0x34 ∷ 0x12 ∷ [])
      (0xea ∷ []) [] absolute 3 (unfold resolve is_dp in refl) refl refl
      (unfold machine_code table Wdc816.entry resolve is_dp code encode_all encoding in refl)
      (unfold labelled in refl)
