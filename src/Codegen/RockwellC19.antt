-- ===== src/Codegen/RockwellC19.antt =====
-- gen_RC19 of shared/src/gen_RC19.c: the instruction table, with one function of a child module
-- for each `case` of its switch, and the error behind it.
pub mod Loads
pub mod Arithmetic
pub mod Logic
pub mod Shifts
pub mod Bits
pub mod Branches
pub mod Jumps
pub mod Stack
pub mod Flags
pub mod Transfers
pub mod Threads
use tools.Base.{ℕ, List, Option, none}
use tools.Cpu.{
  OpCode, adc, add, and, asl, asr, bar, bas, bbr, bbs, bcc, bcs, beq, bit, bmi, bne, bpl, bra, brk,
  bvc, bvs, clc, cld, cli, clv, clw, cmp, cpx, cpy, dec, dex, dey, eor, exc, inc, ini, inx, iny,
  jmp, jpi, jsb, jsr, lab, lai, lan, lda, ldx, ldy, lii, lsr, mpa, mpy, neg, nop, nxt, ora, pha,
  phi, php, phw, phx, phy, pia, pla, pli, plp, plw, plx, ply, psh, pul, rba, rmb, rnd, rol, ror,
  rti, rts, sba, sbc, sec, sed, sei, smb, sta, sti, stx, sty, taw, tax, tay, tip, tsx, twa, txa,
  txs, tya, AddrMode, em_rc19,
}
use tools.Codegen.State.{Globals, State, globals}
use tools.Codegen.Call.{Call, finish}

unfoldable pub entry : OpCode → AddrMode → ℕ → ℕ → ℕ → Globals → Option (List Call)
unfolding Loads.lab Loads.lai Loads.lan Loads.lda Loads.ldx Loads.ldy Loads.sta Loads.sti Loads.stx
    Loads.sty Arithmetic.adc Arithmetic.add Arithmetic.cmp Arithmetic.cpx Arithmetic.cpy
    Arithmetic.dec Arithmetic.dex Arithmetic.dey Arithmetic.inc Arithmetic.inx Arithmetic.iny
    Arithmetic.mpa Arithmetic.mpy Arithmetic.neg Arithmetic.rnd Arithmetic.sbc Logic.and Logic.bit
    Logic.eor Logic.ora Shifts.asl Shifts.asr Shifts.lsr Shifts.rol Shifts.ror Bits.bar Bits.bas
    Bits.bbr Bits.bbs Bits.rba Bits.rmb Bits.sba Bits.smb Branches.bcc Branches.bcs Branches.beq
    Branches.bmi Branches.bne Branches.bpl Branches.bra Branches.bvc Branches.bvs Jumps.brk
    Jumps.jmp Jumps.jpi Jumps.jsb Jumps.jsr Jumps.rti Jumps.rts Stack.pha Stack.php Stack.phw
    Stack.phx Stack.phy Stack.pla Stack.plp Stack.plw Stack.plx Stack.ply Stack.psh Stack.pul
    Flags.clc Flags.cld Flags.cli Flags.clv Flags.clw Flags.nop Flags.sec Flags.sed Flags.sei
    Transfers.exc Transfers.taw Transfers.tax Transfers.tay Transfers.tsx Transfers.twa
    Transfers.txa Transfers.txs Transfers.tya Threads.ini Threads.lii Threads.nxt Threads.phi
    Threads.pia Threads.pli Threads.tip
entry adc mode value1 value2 value3 g = Arithmetic.adc mode value1
entry add mode value1 value2 value3 g = Arithmetic.add mode value1
entry and mode value1 value2 value3 g = Logic.and mode value1
entry asl mode value1 value2 value3 g = Shifts.asl mode value1
entry asr mode value1 value2 value3 g = Shifts.asr mode
entry bar mode value1 value2 value3 g = Bits.bar mode value1 value2 value3
entry bas mode value1 value2 value3 g = Bits.bas mode value1 value2 value3
entry bbr mode value1 value2 value3 g = Bits.bbr mode value1 value2 value3
entry bbs mode value1 value2 value3 g = Bits.bbs mode value1 value2 value3
entry bcc mode value1 value2 value3 g = Branches.bcc mode value1
entry bcs mode value1 value2 value3 g = Branches.bcs mode value1
entry beq mode value1 value2 value3 g = Branches.beq mode value1
entry bit mode value1 value2 value3 g = Logic.bit mode value1
entry bmi mode value1 value2 value3 g = Branches.bmi mode value1
entry bne mode value1 value2 value3 g = Branches.bne mode value1
entry bpl mode value1 value2 value3 g = Branches.bpl mode value1
entry bra mode value1 value2 value3 g = Branches.bra mode value1
entry brk mode value1 value2 value3 g = Jumps.brk mode value1
entry bvc mode value1 value2 value3 g = Branches.bvc mode value1
entry bvs mode value1 value2 value3 g = Branches.bvs mode value1
entry clc mode value1 value2 value3 g = Flags.clc mode
entry cld mode value1 value2 value3 g = Flags.cld mode
entry cli mode value1 value2 value3 g = Flags.cli mode
entry clv mode value1 value2 value3 g = Flags.clv mode
entry clw mode value1 value2 value3 g = Flags.clw mode
entry cmp mode value1 value2 value3 g = Arithmetic.cmp mode value1
entry cpx mode value1 value2 value3 g = Arithmetic.cpx mode value1
entry cpy mode value1 value2 value3 g = Arithmetic.cpy mode value1
entry dec mode value1 value2 value3 g = Arithmetic.dec mode value1
entry dex mode value1 value2 value3 g = Arithmetic.dex mode
entry dey mode value1 value2 value3 g = Arithmetic.dey mode
entry eor mode value1 value2 value3 g = Logic.eor mode value1
entry exc mode value1 value2 value3 g = Transfers.exc mode value1
entry inc mode value1 value2 value3 g = Arithmetic.inc mode value1
entry ini mode value1 value2 value3 g = Threads.ini mode
entry inx mode value1 value2 value3 g = Arithmetic.inx mode
entry iny mode value1 value2 value3 g = Arithmetic.iny mode
entry jmp mode value1 value2 value3 g = Jumps.jmp mode value1
entry jpi mode value1 value2 value3 g = Jumps.jpi mode value1
entry jsb mode value1 value2 value3 g = Jumps.jsb mode value1
entry jsr mode value1 value2 value3 g = Jumps.jsr mode value1
entry lab mode value1 value2 value3 g = Loads.lab mode
entry lai mode value1 value2 value3 g = Loads.lai mode
entry lan mode value1 value2 value3 g = Loads.lan mode
entry lda mode value1 value2 value3 g = Loads.lda mode value1
entry ldx mode value1 value2 value3 g = Loads.ldx mode value1
entry ldy mode value1 value2 value3 g = Loads.ldy mode value1
entry lii mode value1 value2 value3 g = Threads.lii mode
entry lsr mode value1 value2 value3 g = Shifts.lsr mode value1
entry mpa mode value1 value2 value3 g = Arithmetic.mpa mode
entry mpy mode value1 value2 value3 g = Arithmetic.mpy mode
entry neg mode value1 value2 value3 g = Arithmetic.neg mode
entry nop mode value1 value2 value3 g = Flags.nop mode
entry nxt mode value1 value2 value3 g = Threads.nxt mode
entry ora mode value1 value2 value3 g = Logic.ora mode value1
entry pha mode value1 value2 value3 g = Stack.pha mode
entry phi mode value1 value2 value3 g = Threads.phi mode
entry php mode value1 value2 value3 g = Stack.php mode
entry phw mode value1 value2 value3 g = Stack.phw mode
entry phx mode value1 value2 value3 g = Stack.phx mode
entry phy mode value1 value2 value3 g = Stack.phy mode
entry pia mode value1 value2 value3 g = Threads.pia mode
entry pla mode value1 value2 value3 g = Stack.pla mode
entry pli mode value1 value2 value3 g = Threads.pli mode
entry plp mode value1 value2 value3 g = Stack.plp mode
entry plw mode value1 value2 value3 g = Stack.plw mode
entry plx mode value1 value2 value3 g = Stack.plx mode
entry ply mode value1 value2 value3 g = Stack.ply mode
entry psh mode value1 value2 value3 g = Stack.psh mode
entry pul mode value1 value2 value3 g = Stack.pul mode
entry rba mode value1 value2 value3 g = Bits.rba mode value1 value2
entry rmb mode value1 value2 value3 g = Bits.rmb mode value1 value2
entry rnd mode value1 value2 value3 g = Arithmetic.rnd mode
entry rol mode value1 value2 value3 g = Shifts.rol mode value1
entry ror mode value1 value2 value3 g = Shifts.ror mode value1
entry rti mode value1 value2 value3 g = Jumps.rti mode
entry rts mode value1 value2 value3 g = Jumps.rts mode
entry sba mode value1 value2 value3 g = Bits.sba mode value1 value2
entry sbc mode value1 value2 value3 g = Arithmetic.sbc mode value1
entry sec mode value1 value2 value3 g = Flags.sec mode
entry sed mode value1 value2 value3 g = Flags.sed mode
entry sei mode value1 value2 value3 g = Flags.sei mode
entry smb mode value1 value2 value3 g = Bits.smb mode value1 value2
entry sta mode value1 value2 value3 g = Loads.sta mode value1
entry sti mode value1 value2 value3 g = Loads.sti mode value1 value2
entry stx mode value1 value2 value3 g = Loads.stx mode value1
entry sty mode value1 value2 value3 g = Loads.sty mode value1
entry taw mode value1 value2 value3 g = Transfers.taw mode
entry tax mode value1 value2 value3 g = Transfers.tax mode
entry tay mode value1 value2 value3 g = Transfers.tay mode
entry tip mode value1 value2 value3 g = Threads.tip mode
entry tsx mode value1 value2 value3 g = Transfers.tsx mode
entry twa mode value1 value2 value3 g = Transfers.twa mode
entry txa mode value1 value2 value3 g = Transfers.txa mode
entry txs mode value1 value2 value3 g = Transfers.txs mode
entry tya mode value1 value2 value3 g = Transfers.tya mode
entry _ mode value1 value2 value3 g = none

unfoldable pub gen_rc19 : OpCode → AddrMode → ℕ → ℕ → ℕ → State → State
gen_rc19 opcode mode value1 value2 value3 s =
    finish em_rc19 opcode mode (entry opcode mode value1 value2 value3 (globals s)) s
