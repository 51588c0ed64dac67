-- ===== src/Codegen/Rockwell65C02.antt =====
-- gen_RC02 of shared/src/gen_RC02.c: the instruction table, with one function of a child module
-- for each `case` of its switch, and the error behind it.
pub mod Loads
pub mod Arithmetic
pub mod Logic
pub mod Shifts
pub mod Bits
pub mod Branches
pub mod Jumps
pub mod Stack
pub mod Flags
pub mod Transfers
use tools.Base.{ℕ, List, Option, none}
use tools.Cpu.{
  OpCode, adc, and, asl, bbr, bbs, bcc, bcs, beq, bit, bmi, bne, bpl, bra, brk, bvc, bvs, clc, cld,
  cli, clv, cmp, cpx, cpy, dec, dex, dey, eor, inc, inx, iny, jmp, jsr, lda, ldx, ldy, lsr, nop,
  ora, pha, php, phx, phy, pla, plp, plx, ply, rmb, rol, ror, rti, rts, sbc, sec, sed, sei, smb,
  sta, stx, sty, stz, tax, tay, tsx, txa, txs, tya, AddrMode, em_rc02,
}
use tools.Codegen.State.{Globals, State, globals}
use tools.Codegen.Call.{Call, finish}

unfoldable pub entry : OpCode → AddrMode → ℕ → ℕ → ℕ → Globals → Option (List Call)
unfolding Loads.lda Loads.ldx Loads.ldy Loads.sta Loads.stx Loads.sty Loads.stz Arithmetic.adc
    Arithmetic.cmp Arithmetic.cpx Arithmetic.cpy Arithmetic.dec Arithmetic.dex Arithmetic.dey
    Arithmetic.inc Arithmetic.inx Arithmetic.iny Arithmetic.sbc Logic.and Logic.bit Logic.eor
    Logic.ora Shifts.asl Shifts.lsr Shifts.rol Shifts.ror Bits.bbr Bits.bbs Bits.rmb Bits.smb
    Branches.bcc Branches.bcs Branches.beq Branches.bmi Branches.bne Branches.bpl Branches.bra
    Branches.bvc Branches.bvs Jumps.brk Jumps.jmp Jumps.jsr Jumps.rti Jumps.rts Stack.pha Stack.php
    Stack.phx Stack.phy Stack.pla Stack.plp Stack.plx Stack.ply Flags.clc Flags.cld Flags.cli
    Flags.clv Flags.nop Flags.sec Flags.sed Flags.sei Transfers.tax Transfers.tay Transfers.tsx
    Transfers.txa Transfers.txs Transfers.tya
entry adc mode value1 value2 value3 g = Arithmetic.adc mode value1
entry and mode value1 value2 value3 g = Logic.and mode value1
entry asl mode value1 value2 value3 g = Shifts.asl mode value1
entry bbr mode value1 value2 value3 g = Bits.bbr mode value1 value2 value3
entry bbs mode value1 value2 value3 g = Bits.bbs mode value1 value2 value3
entry bcc mode value1 value2 value3 g = Branches.bcc mode value1
entry bcs mode value1 value2 value3 g = Branches.bcs mode value1
entry beq mode value1 value2 value3 g = Branches.beq mode value1
entry bit mode value1 value2 value3 g = Logic.bit mode value1
entry bmi mode value1 value2 value3 g = Branches.bmi mode value1
entry bne mode value1 value2 value3 g = Branches.bne mode value1
entry bpl mode value1 value2 value3 g = Branches.bpl mode value1
entry bra mode value1 value2 value3 g = Branches.bra mode value1
entry brk mode value1 value2 value3 g = Jumps.brk mode value1
entry bvc mode value1 value2 value3 g = Branches.bvc mode value1
entry bvs mode value1 value2 value3 g = Branches.bvs mode value1
entry clc mode value1 value2 value3 g = Flags.clc mode
entry cld mode value1 value2 value3 g = Flags.cld mode
entry cli mode value1 value2 value3 g = Flags.cli mode
entry clv mode value1 value2 value3 g = Flags.clv mode
entry cmp mode value1 value2 value3 g = Arithmetic.cmp mode value1
entry cpx mode value1 value2 value3 g = Arithmetic.cpx mode value1
entry cpy mode value1 value2 value3 g = Arithmetic.cpy mode value1
entry dec mode value1 value2 value3 g = Arithmetic.dec mode value1
entry dex mode value1 value2 value3 g = Arithmetic.dex mode
entry dey mode value1 value2 value3 g = Arithmetic.dey mode
entry eor mode value1 value2 value3 g = Logic.eor mode value1
entry inc mode value1 value2 value3 g = Arithmetic.inc mode value1
entry inx mode value1 value2 value3 g = Arithmetic.inx mode
entry iny mode value1 value2 value3 g = Arithmetic.iny mode
entry jmp mode value1 value2 value3 g = Jumps.jmp mode value1
entry jsr mode value1 value2 value3 g = Jumps.jsr mode value1
entry lda mode value1 value2 value3 g = Loads.lda mode value1
entry ldx mode value1 value2 value3 g = Loads.ldx mode value1
entry ldy mode value1 value2 value3 g = Loads.ldy mode value1
entry lsr mode value1 value2 value3 g = Shifts.lsr mode value1
entry nop mode value1 value2 value3 g = Flags.nop mode
entry ora mode value1 value2 value3 g = Logic.ora mode value1
entry pha mode value1 value2 value3 g = Stack.pha mode
entry php mode value1 value2 value3 g = Stack.php mode
entry phx mode value1 value2 value3 g = Stack.phx mode
entry phy mode value1 value2 value3 g = Stack.phy mode
entry pla mode value1 value2 value3 g = Stack.pla mode
entry plp mode value1 value2 value3 g = Stack.plp mode
entry plx mode value1 value2 value3 g = Stack.plx mode
entry ply mode value1 value2 value3 g = Stack.ply mode
entry rmb mode value1 value2 value3 g = Bits.rmb mode value1 value2
entry rol mode value1 value2 value3 g = Shifts.rol mode value1
entry ror mode value1 value2 value3 g = Shifts.ror mode value1
entry rti mode value1 value2 value3 g = Jumps.rti mode
entry rts mode value1 value2 value3 g = Jumps.rts mode
entry sbc mode value1 value2 value3 g = Arithmetic.sbc mode value1
entry sec mode value1 value2 value3 g = Flags.sec mode
entry sed mode value1 value2 value3 g = Flags.sed mode
entry sei mode value1 value2 value3 g = Flags.sei mode
entry smb mode value1 value2 value3 g = Bits.smb mode value1 value2
entry sta mode value1 value2 value3 g = Loads.sta mode value1
entry stx mode value1 value2 value3 g = Loads.stx mode value1
entry sty mode value1 value2 value3 g = Loads.sty mode value1
entry stz mode value1 value2 value3 g = Loads.stz mode value1
entry tax mode value1 value2 value3 g = Transfers.tax mode
entry tay mode value1 value2 value3 g = Transfers.tay mode
entry tsx mode value1 value2 value3 g = Transfers.tsx mode
entry txa mode value1 value2 value3 g = Transfers.txa mode
entry txs mode value1 value2 value3 g = Transfers.txs mode
entry tya mode value1 value2 value3 g = Transfers.tya mode
entry _ mode value1 value2 value3 g = none

unfoldable pub gen_rc02 : OpCode → AddrMode → ℕ → ℕ → ℕ → State → State
gen_rc02 opcode mode value1 value2 value3 s =
    finish em_rc02 opcode mode (entry opcode mode value1 value2 value3 (globals s)) s
