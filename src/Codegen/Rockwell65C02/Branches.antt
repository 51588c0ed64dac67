-- ===== src/Codegen/Rockwell65C02/Branches.antt =====
-- The entries of gen_RC02 (shared/src/gen_RC02.c): relative branches.
use tools.Base.{ℕ, List, [], ◌∷◌, Option, none, some}
use tools.Cpu.{AddrMode, absolute, direct_page, program_counter_relative}
use tools.Codegen.Call.{Call, branch}

unfoldable pub bcc : AddrMode → ℕ → Option (List Call)
bcc direct_page value1 = some (branch 0x90 value1 ∷ [])
bcc absolute value1 = some (branch 0x90 value1 ∷ [])
bcc program_counter_relative value1 = some (branch 0x90 value1 ∷ [])
bcc _ value1 = none

unfoldable pub bcs : AddrMode → ℕ → Option (List Call)
bcs direct_page value1 = some (branch 0xb0 value1 ∷ [])
bcs absolute value1 = some (branch 0xb0 value1 ∷ [])
bcs program_counter_relative value1 = some (branch 0xb0 value1 ∷ [])
bcs _ value1 = none

unfoldable pub beq : AddrMode → ℕ → Option (List Call)
beq direct_page value1 = some (branch 0xf0 value1 ∷ [])
beq absolute value1 = some (branch 0xf0 value1 ∷ [])
beq program_counter_relative value1 = some (branch 0xf0 value1 ∷ [])
beq _ value1 = none

unfoldable pub bmi : AddrMode → ℕ → Option (List Call)
bmi direct_page value1 = some (branch 0x30 value1 ∷ [])
bmi absolute value1 = some (branch 0x30 value1 ∷ [])
bmi program_counter_relative value1 = some (branch 0x30 value1 ∷ [])
bmi _ value1 = none

unfoldable pub bne : AddrMode → ℕ → Option (List Call)
bne direct_page value1 = some (branch 0xd0 value1 ∷ [])
bne absolute value1 = some (branch 0xd0 value1 ∷ [])
bne program_counter_relative value1 = some (branch 0xd0 value1 ∷ [])
bne _ value1 = none

unfoldable pub bpl : AddrMode → ℕ → Option (List Call)
bpl direct_page value1 = some (branch 0x10 value1 ∷ [])
bpl absolute value1 = some (branch 0x10 value1 ∷ [])
bpl program_counter_relative value1 = some (branch 0x10 value1 ∷ [])
bpl _ value1 = none

unfoldable pub bra : AddrMode → ℕ → Option (List Call)
bra direct_page value1 = some (branch 0x80 value1 ∷ [])
bra absolute value1 = some (branch 0x80 value1 ∷ [])
bra program_counter_relative value1 = some (branch 0x80 value1 ∷ [])
bra _ value1 = none

unfoldable pub bvc : AddrMode → ℕ → Option (List Call)
bvc direct_page value1 = some (branch 0x50 value1 ∷ [])
bvc absolute value1 = some (branch 0x50 value1 ∷ [])
bvc program_counter_relative value1 = some (branch 0x50 value1 ∷ [])
bvc _ value1 = none

unfoldable pub bvs : AddrMode → ℕ → Option (List Call)
bvs direct_page value1 = some (branch 0x70 value1 ∷ [])
bvs absolute value1 = some (branch 0x70 value1 ∷ [])
bvs program_counter_relative value1 = some (branch 0x70 value1 ∷ [])
bvs _ value1 = none
