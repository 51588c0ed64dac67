-- ===== src/Cpu.antt =====
-- shared/include/cpu.h and the instruction tokens of shared/include/as_tokens.h: what an
-- instruction of the assembler is, before it is encoded.
pub mod Modes

-- the tokens that as_tokens.h marks F_INSTR, in their order
pub data OpCode : Type 0 where
  adc add and asl asr bar bas bbr bbs bcc bcs beq bge bit bmi bne bpl bra brk brl bvc : OpCode
  bvs clc cld cli clv clw cmp cop cpx cpy dec dex dey eor exc inc ini inx iny jml jmp : OpCode
  jpi jsb jsl jsr lab lai lan lda ldx ldy lii lsr mpa mpy mvn mvp neg nop nxt ora pea : OpCode
  pei per pha phb phd phi phk php phw phx phy pia pla plb pld pli plp plw plx ply psh : OpCode
  pul rba rep rmb rnd rol ror rti rtl rts sba sbc sec sed sei sep smb sta sti stp stx : OpCode
  sty stz swa tad tas taw tax tay tcd tcs tda tdc tip trb tsa tsb tsc tsx twa txa txs : OpCode
  txy tya tyx wai wdm xba xce : OpCode

pub data AddrMode : Type 0 where
  absolute accumulator absolute_indexed_x absolute_indexed_y absolute_long : AddrMode
  absolute_long_indexed_x absolute_indirect absolute_indexed_indirect direct_page : AddrMode
  stack_direct_page_indirect direct_page_indexed_x direct_page_indexed_y : AddrMode
  direct_page_indirect direct_page_indirect_long implied program_counter_relative : AddrMode
  program_counter_relative_long absolute_indirect_long block_move : AddrMode
  direct_page_indexed_indirect_x direct_page_indirect_indexed_y : AddrMode
  direct_page_indirect_long_indexed_y immediate stack_relative : AddrMode
  stack_relative_indirect_indexed_y bit_zero_page_relative bit_zero_page : AddrMode
  bit_absolute_relative bit_absolute immediate_zero_page : AddrMode

-- the modifier written behind a mnemonic or an operand
pub data Modifier : Type 0 where
  m_byte m_direct m_absolute m_word m_long m_float m_double m_zero m_bit7 m_none : Modifier

pub record Instr : Type 0 where
  pub opcode : OpCode
  pub mode : AddrMode
  pub modifier : Modifier

-- the values of e_machine that codegen_gen tells apart
pub data Machine : Type 0 where
  em_816 em_c02 em_02 em_rc02 em_rc01 em_rc19 em_other : Machine
