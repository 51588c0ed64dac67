-- ===== src/Codegen/Wdc816.antt =====
-- gen_816 of shared/src/gen_816.c: the instruction table, with one function of a child module
-- for each `case` of its switch, and the error behind it.
pub mod Loads
pub mod Arithmetic
pub mod Logic
pub mod Shifts
pub mod Branches
pub mod Jumps
pub mod Stack
pub mod Flags
pub mod Transfers
use tools.Base.{ℕ, List, Option, none}
use tools.Cpu.{
  OpCode, adc, and, asl, bcc, bcs, beq, bit, bmi, bne, bpl, bra, brk, brl, bvc, bvs, clc, cld, cli,
  clv, cmp, cop, cpx, cpy, dec, dex, dey, eor, inc, inx, iny, jml, jmp, jsl, jsr, lda, ldx, ldy,
  lsr, mvn, mvp, nop, ora, pea, pei, per, pha, phb, phd, phk, php, phx, phy, pla, plb, pld, plp,
  plx, ply, rep, rol, ror, rti, rtl, rts, sbc, sec, sed, sei, sep, sta, stp, stx, sty, stz, swa,
  tad, tas, tax, tay, tcd, tcs, tda, tdc, trb, tsa, tsb, tsc, tsx, txa, txs, txy, tya, tyx, wai,
  wdm, xba, xce, AddrMode, em_816,
}
use tools.Codegen.State.{Globals, State, globals}
use tools.Codegen.Call.{Call, finish}

unfoldable pub entry : OpCode → AddrMode → ℕ → ℕ → Globals → Option (List Call)
unfolding Loads.lda Loads.ldx Loads.ldy Loads.sta Loads.stx Loads.sty Loads.stz Arithmetic.adc
    Arithmetic.cmp Arithmetic.cpx Arithmetic.cpy Arithmetic.dec Arithmetic.dex Arithmetic.dey
    Arithmetic.inc Arithmetic.inx Arithmetic.iny Arithmetic.sbc Logic.and Logic.bit Logic.eor
    Logic.ora Logic.trb Logic.tsb Shifts.asl Shifts.lsr Shifts.rol Shifts.ror Branches.bcc
    Branches.bcs Branches.beq Branches.bmi Branches.bne Branches.bpl Branches.bra Branches.brl
    Branches.bvc Branches.bvs Jumps.brk Jumps.cop Jumps.jmp Jumps.jml Jumps.jsl Jumps.jsr Jumps.rti
    Jumps.rtl Jumps.rts Jumps.wdm Stack.pea Stack.pei Stack.per Stack.pha Stack.phb Stack.phd
    Stack.phk Stack.php Stack.phx Stack.phy Stack.pla Stack.plb Stack.pld Stack.plp Stack.plx
    Stack.ply Flags.clc Flags.cld Flags.cli Flags.clv Flags.nop Flags.rep Flags.sec Flags.sed
    Flags.sei Flags.sep Flags.stp Flags.wai Flags.xce Transfers.mvn Transfers.mvp Transfers.tax
    Transfers.tay Transfers.tad Transfers.tas Transfers.tda Transfers.tsa Transfers.tsx
    Transfers.txa Transfers.txs Transfers.txy Transfers.tya Transfers.tyx Transfers.swa
entry adc mode value1 value2 g = Arithmetic.adc mode value1 g
entry and mode value1 value2 g = Logic.and mode value1 g
entry asl mode value1 value2 g = Shifts.asl mode value1
entry bcc mode value1 value2 g = Branches.bcc mode value1
entry bcs mode value1 value2 g = Branches.bcs mode value1
entry beq mode value1 value2 g = Branches.beq mode value1
entry bit mode value1 value2 g = Logic.bit mode value1 g
entry bmi mode value1 value2 g = Branches.bmi mode value1
entry bne mode value1 value2 g = Branches.bne mode value1
entry bpl mode value1 value2 g = Branches.bpl mode value1
entry bra mode value1 value2 g = Branches.bra mode value1 g
entry brk mode value1 value2 g = Jumps.brk mode value1
entry brl mode value1 value2 g = Branches.brl mode value1 g
entry bvc mode value1 value2 g = Branches.bvc mode value1
entry bvs mode value1 value2 g = Branches.bvs mode value1
entry clc mode value1 value2 g = Flags.clc mode
entry cld mode value1 value2 g = Flags.cld mode
entry cli mode value1 value2 g = Flags.cli mode
entry clv mode value1 value2 g = Flags.clv mode
entry cmp mode value1 value2 g = Arithmetic.cmp mode value1 g
entry cop mode value1 value2 g = Jumps.cop mode value1
entry cpx mode value1 value2 g = Arithmetic.cpx mode value1 g
entry cpy mode value1 value2 g = Arithmetic.cpy mode value1 g
entry dec mode value1 value2 g = Arithmetic.dec mode value1
entry dex mode value1 value2 g = Arithmetic.dex mode
entry dey mode value1 value2 g = Arithmetic.dey mode
entry eor mode value1 value2 g = Logic.eor mode value1 g
entry inc mode value1 value2 g = Arithmetic.inc mode value1
entry inx mode value1 value2 g = Arithmetic.inx mode
entry iny mode value1 value2 g = Arithmetic.iny mode
entry jml mode value1 value2 g = Jumps.jml mode value1
entry jmp mode value1 value2 g = Jumps.jmp mode value1
entry jsl mode value1 value2 g = Jumps.jsl mode value1
entry jsr mode value1 value2 g = Jumps.jsr mode value1
entry lda mode value1 value2 g = Loads.lda mode value1 g
entry ldx mode value1 value2 g = Loads.ldx mode value1 g
entry ldy mode value1 value2 g = Loads.ldy mode value1 g
entry lsr mode value1 value2 g = Shifts.lsr mode value1
entry mvn mode value1 value2 g = Transfers.mvn mode value1 value2
entry mvp mode value1 value2 g = Transfers.mvp mode value1 value2
entry nop mode value1 value2 g = Flags.nop mode
entry ora mode value1 value2 g = Logic.ora mode value1 g
entry pea mode value1 value2 g = Stack.pea mode value1
entry pei mode value1 value2 g = Stack.pei mode value1
entry per mode value1 value2 g = Stack.per mode value1
entry pha mode value1 value2 g = Stack.pha mode
entry phb mode value1 value2 g = Stack.phb mode
entry phd mode value1 value2 g = Stack.phd mode
entry phk mode value1 value2 g = Stack.phk mode
entry php mode value1 value2 g = Stack.php mode
entry phx mode value1 value2 g = Stack.phx mode
entry phy mode value1 value2 g = Stack.phy mode
entry pla mode value1 value2 g = Stack.pla mode
entry plb mode value1 value2 g = Stack.plb mode
entry pld mode value1 value2 g = Stack.pld mode
entry plp mode value1 value2 g = Stack.plp mode
entry plx mode value1 value2 g = Stack.plx mode
entry ply mode value1 value2 g = Stack.ply mode
entry rep mode value1 value2 g = Flags.rep mode value1
entry rol mode value1 value2 g = Shifts.rol mode value1
entry ror mode value1 value2 g = Shifts.ror mode value1
entry rti mode value1 value2 g = Jumps.rti mode
entry rtl mode value1 value2 g = Jumps.rtl mode
entry rts mode value1 value2 g = Jumps.rts mode
entry sbc mode value1 value2 g = Arithmetic.sbc mode value1 g
entry sec mode value1 value2 g = Flags.sec mode
entry sed mode value1 value2 g = Flags.sed mode
entry sei mode value1 value2 g = Flags.sei mode
entry sep mode value1 value2 g = Flags.sep mode value1
entry sta mode value1 value2 g = Loads.sta mode value1
entry stp mode value1 value2 g = Flags.stp mode
entry stx mode value1 value2 g = Loads.stx mode value1
entry sty mode value1 value2 g = Loads.sty mode value1
entry stz mode value1 value2 g = Loads.stz mode value1
entry swa mode value1 value2 g = Transfers.swa mode
entry tad mode value1 value2 g = Transfers.tad mode
entry tas mode value1 value2 g = Transfers.tas mode
entry tax mode value1 value2 g = Transfers.tax mode
entry tay mode value1 value2 g = Transfers.tay mode
entry tcd mode value1 value2 g = Transfers.tad mode
entry tcs mode value1 value2 g = Transfers.tas mode
entry tda mode value1 value2 g = Transfers.tda mode
entry tdc mode value1 value2 g = Transfers.tda mode
entry trb mode value1 value2 g = Logic.trb mode value1
entry tsa mode value1 value2 g = Transfers.tsa mode
entry tsb mode value1 value2 g = Logic.tsb mode value1
entry tsc mode value1 value2 g = Transfers.tsa mode
entry tsx mode value1 value2 g = Transfers.tsx mode
entry txa mode value1 value2 g = Transfers.txa mode
entry txs mode value1 value2 g = Transfers.txs mode
entry txy mode value1 value2 g = Transfers.txy mode
entry tya mode value1 value2 g = Transfers.tya mode
entry tyx mode value1 value2 g = Transfers.tyx mode
entry wai mode value1 value2 g = Flags.wai mode
entry wdm mode value1 value2 g = Jumps.wdm mode value1
entry xba mode value1 value2 g = Transfers.swa mode
entry xce mode value1 value2 g = Flags.xce mode
entry _ mode value1 value2 g = none

unfoldable pub gen_816 : OpCode → AddrMode → ℕ → ℕ → State → State
gen_816 opcode mode value1 value2 s =
    finish em_816 opcode mode (entry opcode mode value1 value2 (globals s)) s
