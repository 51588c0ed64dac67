-- ===== src/Codegen/Mos6502/Branches.antt =====
-- The entries of gen_02 (shared/src/gen_02.c): relative branches.
use tools.Base.{ℕ, List, [], ◌∷◌, Option, none, some}
use tools.Cpu.{AddrMode, absolute, direct_page, program_counter_relative}
use tools.Codegen.Call.{Call, branch}

unfoldable pub bcc : AddrMode → ℕ → Option (List Call)
bcc absolute value1 = some (branch 0x90 value1 ∷ [])
bcc direct_page value1 = some (branch 0x90 value1 ∷ [])
bcc program_counter_relative value1 = some (branch 0x90 value1 ∷ [])
bcc _ value1 = none

unfoldable pub bcs : AddrMode → ℕ → Option (List Call)
bcs absolute value1 = some (branch 0xb0 value1 ∷ [])
bcs direct_page value1 = some (branch 0xb0 value1 ∷ [])
bcs program_counter_relative value1 = some (branch 0xb0 value1 ∷ [])
bcs _ value1 = none

unfoldable pub beq : AddrMode → ℕ → Option (List Call)
beq absolute value1 = some (branch 0xf0 value1 ∷ [])
beq direct_page value1 = some (branch 0xf0 value1 ∷ [])
beq program_counter_relative value1 = some (branch 0xf0 value1 ∷ [])
beq _ value1 = none

unfoldable pub bmi : AddrMode → ℕ → Option (List Call)
bmi direct_page value1 = some (branch 0x30 value1 ∷ [])
bmi absolute value1 = some (branch 0x30 value1 ∷ [])
bmi program_counter_relative value1 = some (branch 0x30 value1 ∷ [])
bmi _ value1 = none

unfoldable pub bne : AddrMode → ℕ → Option (List Call)
bne absolute value1 = some (branch 0xd0 value1 ∷ [])
bne direct_page value1 = some (branch 0xd0 value1 ∷ [])
bne program_counter_relative value1 = some (branch 0xd0 value1 ∷ [])
bne _ value1 = none

unfoldable pub bpl : AddrMode → ℕ → Option (List Call)
bpl absolute value1 = some (branch 0x10 value1 ∷ [])
bpl direct_page value1 = some (branch 0x10 value1 ∷ [])
bpl program_counter_relative value1 = some (branch 0x10 value1 ∷ [])
bpl _ value1 = none

unfoldable pub bvc : AddrMode → ℕ → Option (List Call)
bvc absolute value1 = some (branch 0x50 value1 ∷ [])
bvc direct_page value1 = some (branch 0x50 value1 ∷ [])
bvc program_counter_relative value1 = some (branch 0x50 value1 ∷ [])
bvc _ value1 = none

unfoldable pub bvs : AddrMode → ℕ → Option (List Call)
bvs absolute value1 = some (branch 0x70 value1 ∷ [])
bvs direct_page value1 = some (branch 0x70 value1 ∷ [])
bvs program_counter_relative value1 = some (branch 0x70 value1 ∷ [])
bvs _ value1 = none
