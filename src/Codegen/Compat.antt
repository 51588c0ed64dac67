-- ===== src/Codegen/Compat.antt =====
-- How the instruction tables of related processors agree.
use tools.Base.{ℕ, ◌≡◌, ◌≢◌, refl, false, List, [], ◌∷◌, arith}
use tools.Cpu.{OpCode, adc, bra, eor, ora, sbc, AddrMode, Instr, em_816, em_c02, em_02, em_rc02}
use tools.Cpu.Modes.{AllModes, mode_by_cases}
use tools.Codegen.State.{Globals}
use tools.Codegen.Mode.{resolve}
use tools.Codegen.Wdc816
use tools.Codegen.Wdc65C02
use tools.Codegen.Mos6502
use tools.Codegen.Rockwell65C02
use tools.Codegen.MachineCode.{code, table, machine_code}
use tools.Codegen.Encoding.{encode_all, encoding}

-- If there are bytes in the first place, the second has the same.
abbrev IsKept : List ℕ → List ℕ → Type 0
IsKept [] cs = Unit
IsKept (b ∷ bs) cs = cs ≡ b ∷ bs

kept_bytes : (bs cs : List ℕ) → IsKept bs cs → bs ≢ [] → cs ≡ bs
kept_bytes [] cs h k = absurd (k refl)
kept_bytes (b ∷ bs) cs h k = h

-- the same where both have bytes
abbrev IsCommon : List ℕ → List ℕ → Type 0
IsCommon bs [] = Unit
IsCommon bs (c ∷ cs) = IsKept bs (c ∷ cs)

common_bytes : (bs cs : List ℕ) → IsCommon bs cs → bs ≢ [] → cs ≢ [] → cs ≡ bs
common_bytes bs [] h k l = absurd (l refl)
common_bytes bs (c ∷ cs) h k l = kept_bytes bs (c ∷ cs) h k

module _ (value1 value2 value3 : ℕ) (g : Globals) where
  abbrev MosKept : OpCode → AddrMode → Type 0
  MosKept op mode =
      IsKept (code (Mos6502.entry op mode value1 value2 g) g.addr)
        (code (Wdc65C02.entry op mode value1 value2 g) g.addr)

  abbrev WdcKept : OpCode → AddrMode → Type 0
  WdcKept op mode =
      IsKept (code (Wdc65C02.entry op mode value1 value2 g) g.addr)
        (code (Wdc816.entry op mode value1 value2 g) g.addr)

  abbrev RockwellCommon : OpCode → AddrMode → Type 0
  RockwellCommon op mode =
      IsCommon (code (Wdc65C02.entry op mode value1 value2 g) g.addr)
        (code (Rockwell65C02.entry op mode value1 value2 value3 g) g.addr)

  mos6502_kept : (op : OpCode) → AllModes (MosKept op)
  unfolding Mos6502.entry Wdc65C02.entry code encode_all encoding
  mos6502_kept adc = ground arith
  mos6502_kept _ = ground arith

  wdc65c02_kept :
      (op : OpCode)
      → op ≢ bra
      → value1 ≢ 0
      → g.longa ≡ false
      → g.longi ≡ false
      → AllModes (WdcKept op)
  unfolding Wdc816.entry Wdc65C02.entry code encode_all encoding
  wdc65c02_kept adc n z a i = ground arith
  wdc65c02_kept _ n z a i = ground arith

  rockwell_common : (op : OpCode) → op ≢ eor → op ≢ ora → op ≢ sbc → AllModes (RockwellCommon op)
  unfolding Rockwell65C02.entry Wdc65C02.entry code encode_all encoding
  rockwell_common adc n z a = ground arith
  rockwell_common _ n z a = ground arith

  -- What assembles to bytes for the NMOS 6502 assembles to the same bytes for the 65C02.
  pub mos6502-wdc65c02 :
      (instr : Instr)
      → machine_code em_02 instr value1 value2 value3 g ≢ []
      → machine_code em_c02 instr value1 value2 value3 g
        ≡ machine_code em_02 instr value1 value2 value3 g
  unfolding machine_code table
  mos6502-wdc65c02 instr = kept_bytes _ _ (
      mode_by_cases (MosKept instr.opcode) (mos6502_kept instr.opcode)
        (resolve instr.mode instr.modifier value1))

  -- With 8-bit registers, what assembles to bytes for the 65C02 assembles to the same bytes for
  -- the 65C816, if it is no BRA and its first operand is not 0.
  pub wdc65c02-wdc816 :
      (instr : Instr)
      → instr.opcode ≢ bra
      → value1 ≢ 0
      → g.longa ≡ false
      → g.longi ≡ false
      → machine_code em_c02 instr value1 value2 value3 g ≢ []
      → machine_code em_816 instr value1 value2 value3 g
        ≡ machine_code em_c02 instr value1 value2 value3 g
  unfolding machine_code table
  wdc65c02-wdc816 instr n z a i = kept_bytes _ _ (
      mode_by_cases (WdcKept instr.opcode) (wdc65c02_kept instr.opcode n z a i)
        (resolve instr.mode instr.modifier value1))

  -- Where the WDC and the Rockwell 65C02 both have bytes for an instruction other than EOR, ORA
  -- and SBC, these are the same.
  pub wdc65c02-rockwell65c02 :
      (instr : Instr)
      → instr.opcode ≢ eor
      → instr.opcode ≢ ora
      → instr.opcode ≢ sbc
      → machine_code em_c02 instr value1 value2 value3 g ≢ []
      → machine_code em_rc02 instr value1 value2 value3 g ≢ []
      → machine_code em_rc02 instr value1 value2 value3 g
        ≡ machine_code em_c02 instr value1 value2 value3 g
  unfolding machine_code table
  wdc65c02-rockwell65c02 instr e r b = common_bytes _ _ (
      mode_by_cases (RockwellCommon instr.opcode) (rockwell_common instr.opcode e r b)
        (resolve instr.mode instr.modifier value1))
