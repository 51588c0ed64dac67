-- ===== src/Codegen/Wdc816/Branches.antt =====
-- The entries of gen_816 (shared/src/gen_816.c): relative branches.
use tools.Base.{ℕ, ◌+◌, List, [], ◌∷◌, Option, none, some, if◌then◌else◌, sub_int}
use tools.Cpu.{AddrMode, absolute, direct_page, program_counter_relative}
use tools.Codegen.State.{Globals, promoted, demoted}
use tools.Codegen.Emit.{too_far}
use tools.Codegen.Call.{Call, branch, orl, warn, unless_zero}

unfoldable pub bcc : AddrMode → ℕ → Option (List Call)
bcc direct_page value1 = unless_zero value1 (some (branch 0x90 value1 ∷ []))
bcc absolute value1 = unless_zero value1 (some (branch 0x90 value1 ∷ []))
bcc program_counter_relative value1 = unless_zero value1 (some (branch 0x90 value1 ∷ []))
bcc _ value1 = unless_zero value1 none

unfoldable pub bcs : AddrMode → ℕ → Option (List Call)
bcs direct_page value1 = unless_zero value1 (some (branch 0xb0 value1 ∷ []))
bcs absolute value1 = unless_zero value1 (some (branch 0xb0 value1 ∷ []))
bcs program_counter_relative value1 = unless_zero value1 (some (branch 0xb0 value1 ∷ []))
bcs _ value1 = unless_zero value1 none

unfoldable pub beq : AddrMode → ℕ → Option (List Call)
beq direct_page value1 = unless_zero value1 (some (branch 0xf0 value1 ∷ []))
beq absolute value1 = unless_zero value1 (some (branch 0xf0 value1 ∷ []))
beq program_counter_relative value1 = unless_zero value1 (some (branch 0xf0 value1 ∷ []))
beq _ value1 = unless_zero value1 none

unfoldable pub bmi : AddrMode → ℕ → Option (List Call)
bmi direct_page value1 = unless_zero value1 (some (branch 0x30 value1 ∷ []))
bmi absolute value1 = unless_zero value1 (some (branch 0x30 value1 ∷ []))
bmi program_counter_relative value1 = unless_zero value1 (some (branch 0x30 value1 ∷ []))
bmi _ value1 = unless_zero value1 none

unfoldable pub bne : AddrMode → ℕ → Option (List Call)
bne direct_page value1 = unless_zero value1 (some (branch 0xd0 value1 ∷ []))
bne absolute value1 = unless_zero value1 (some (branch 0xd0 value1 ∷ []))
bne program_counter_relative value1 = unless_zero value1 (some (branch 0xd0 value1 ∷ []))
bne _ value1 = unless_zero value1 none

unfoldable pub bpl : AddrMode → ℕ → Option (List Call)
bpl direct_page value1 = unless_zero value1 (some (branch 0x10 value1 ∷ []))
bpl absolute value1 = unless_zero value1 (some (branch 0x10 value1 ∷ []))
bpl program_counter_relative value1 = unless_zero value1 (some (branch 0x10 value1 ∷ []))
bpl _ value1 = unless_zero value1 none

-- A branch that is out of reach becomes a BRL. The distance is taken before the opcode is written.
unfoldable pub bra_to : ℕ → Globals → Option (List Call)
bra_to value1 g =
    if too_far (sub_int value1 (g.addr + 1))
    then some (warn (promoted value1) ∷ orl 0x82 value1 ∷ [])
    else some (branch 0x80 value1 ∷ [])

unfoldable pub bra : AddrMode → ℕ → Globals → Option (List Call)
unfolding bra_to
bra direct_page value1 g = unless_zero value1 (bra_to value1 g)
bra absolute value1 g = unless_zero value1 (bra_to value1 g)
bra program_counter_relative value1 g = unless_zero value1 (bra_to value1 g)
bra _ value1 g = unless_zero value1 none

-- A BRL within reach of a BRA becomes one.
unfoldable pub brl_to : ℕ → Globals → Option (List Call)
brl_to value1 g =
    if too_far (sub_int value1 (g.addr + 1))
    then some (orl 0x82 value1 ∷ [])
    else some (warn (demoted value1) ∷ branch 0x80 value1 ∷ [])

unfoldable pub brl : AddrMode → ℕ → Globals → Option (List Call)
unfolding brl_to
brl direct_page value1 g = unless_zero value1 (brl_to value1 g)
brl absolute value1 g = unless_zero value1 (brl_to value1 g)
brl program_counter_relative value1 g = unless_zero value1 (brl_to value1 g)
brl _ value1 g = unless_zero value1 none

unfoldable pub bvc : AddrMode → ℕ → Option (List Call)
bvc direct_page value1 = unless_zero value1 (some (branch 0x50 value1 ∷ []))
bvc absolute value1 = unless_zero value1 (some (branch 0x50 value1 ∷ []))
bvc program_counter_relative value1 = unless_zero value1 (some (branch 0x50 value1 ∷ []))
bvc _ value1 = unless_zero value1 none

unfoldable pub bvs : AddrMode → ℕ → Option (List Call)
bvs direct_page value1 = unless_zero value1 (some (branch 0x70 value1 ∷ []))
bvs absolute value1 = unless_zero value1 (some (branch 0x70 value1 ∷ []))
bvs program_counter_relative value1 = unless_zero value1 (some (branch 0x70 value1 ∷ []))
bvs _ value1 = unless_zero value1 none
