-- ===== src/Lib.antt =====
-- The 65xx assembler of 65Tools, as-c/ and shared/: from the tokens of an expression and from
-- instructions with their operands to bytes in the buffer of a section; its table of symbols; and
-- the disassembler of the Oberon compiler, oc/.
--
-- The assembler as-c parses a source file into operations, and its interpreter runs these in
-- passes until the code no longer changes length, and once more to write the output. In every
-- pass each instruction is a call of codegen_gen of shared/src/codegen.c. That function chooses an
-- addressing mode from the one parsed, the modifier and the operand, and calls the instruction
-- table of the machine that the ELF header names: gen_816, gen_C02, gen_02, gen_RC02 or gen_RC19.
-- A table is a switch on the mnemonic with a switch on the mode in each case; its entries call the
-- emitters of codegen.c, which write opcode and operand bytes through `o` and count the address.
-- An entry that is missing ends in an error message.
--
-- Base: what the modules share. Base.Tests has the Boolean tests on numbers, Base.Lists lists
--   measured by native numbers, Base.Options chains of results, Base.Words the C type int.
-- Cpu: shared/include/cpu.h, as_tokens.h, and the machines of elf.h: mnemonics, modes, modifiers,
--   instructions. Cpu.Modes has the case analysis on the mode.
-- Codegen.State: the globals of shared/src/codegen.c, that is addr, longa, longi, reloc, the
--   current section and codegen_current_pass, with the messages reported so far; the functions
--   that set and read them; codegen_getb, codegen_getw, codegen_updateb and codegen_updatew.
-- Codegen.Emit: the emitters of codegen.c, from `o` to obitzr, codegen_byte, codegen_word and
--   codegen_long. `branch` is the function `or` of the source.
-- Codegen.Call: an entry of a table as the list of the emitters that it calls, and the run of such
--   a list. An entry without `return` is `none`, which `finish` turns into the error message.
-- Codegen.Wdc816, Wdc65C02, Mos6502, Rockwell65C02, RockwellC19: gen_816.c, gen_C02.c, gen_02.c,
--   gen_RC02.c and gen_RC19.c in shared/src, a function for each case of the outer switch, in child
--   modules by the kind of instruction. `entry` is the outer switch.
-- Codegen.Mode, Codegen.Gen: the two halves of codegen_gen.
-- Codegen.Layout, Encoding, MachineCode: the machine code of an instruction. Emits says what it means
--   that bytes are emitted from one state to another. `encoding` is an account of the emitters that
--   is independent of them: the bytes of each as a function of the operands and the address.
--   machine_code puts it behind the choice of the mode and the tables of the code, so that which
--   opcode an instruction has is not independent there; Lengths, Compat and Disasm.Whole compare it
--   with other tables.
-- Codegen.Shape, Lengths, Compat: the length of the machine code and its agreement between machines.
-- Codegen.Operand, Truncation: the operand that can be read back from it, for labels and for any
--   value.
-- Codegen.Branch, with Reach, Promotion and Bits: where the processor goes after a relative branch.
-- Codegen.Errors, Relocation: missing instructions, and the table of call addresses.
-- Codegen.Patch, ReadBack: the bytes of the section, read and overwritten.
-- Codegen.Tests: states and instructions at which the theorems are applied.
-- Codegen.Storage: the same bytes in the buffer of the section.
-- Buffer: buf_add, its variants and buf_reset of shared/src/elf_file.c. realloc is a parameter, a
--   record with the laws that the C library documents for a call that succeeds. Buffer.Powers has
--   the arithmetic of its growth, Growth and Chars what it holds, Overflow where it fails,
--   Clearing an allocator and Tests the examples.
-- Symbols: the maps of as-c/src/value.c, red-black trees of names. Symbols.Tree has the tree, its
--   rotations and insertRepairTree, where the pointer to the parent is the path to the root;
--   Symbols.Map has map_find, map_set, map_get and map_count over strncmp as a parameter, the
--   record KeyOrder with the laws of an order. Entries, Sorted, Lookup, Laws, Balance, Depth and
--   Build have the tree as a sorted list of entries and its height; Symbols.Debug dsym_add and
--   dsym_find.
-- Interp: as-c/src/interp.c and the values that it works on. Interp.Long and Interp.Object are the
--   arithmetic of value.c, Interp.Stack the operations on the stack, Emit and Text those that emit,
--   Interp.Run the state, one function for each case of interp_interp and its loop. Postfix,
--   Values, Data, Escapes, Assemble, Lines, Flags and Branches follow lists of operations through
--   it; Interp.Sample is a state for tests.
-- Parser: expressions and lists in as-c/src/parser.c. Parser.Rules has parse_factor to
--   parse_expression, from tokens to operations of Interp, Parser.Lists parse_list, parse_data,
--   parse_text and parse_fill. Syntax, Ends, RoundTrip and Termination are on the grammar, and
--   Pipeline joins the parser and the interpreter.
-- Scanner: number, hex and binary of as-c/src/scanner.c, on the characters from the lookahead on.
-- Disasm: decode_instruction, update_processor_status and disassemble_instruction of
--   oc/src/disasm.c, and their agreement with Codegen.Lengths and Codegen.MachineCode.
--
-- A C int is its 32-bit pattern, a number below 2 ^ 32 (Base.Words); `v >> 8` where it is converted
-- to a byte takes the same bits from the pattern. The address is a long in the source and an
-- unbounded number here, which no assembly of less than 2 ^ 63 bytes tells apart; a difference
-- with it is cut to an int, as in the source. An entry of the relocation table is a short, its
-- pattern below 2 ^ 16. All functions recur on their arguments but the loop that doubles the size
-- of a buffer, whose fuel is the number of bytes wanted: each round adds at least one, so it ends
-- with room for all of them. Up to 2 ^ 30 bytes no size there overflows an int. A read or a write
-- outside a section or a block is undefined in C and `none` here.
--
-- Of a section the code generator's model keeps the flag for bss, the start address and the bytes up to sh_size.
-- The file names and line numbers in messages and the listing text are left out. A machine that
-- codegen_gen does not know is em_other, for which it does nothing.
--
-- A value of the assembler is a long, its 64-bit pattern; overflow, which C leaves undefined, wraps
-- there and in the scanner's ival, and a division by 0, which traps, is `none`. The conversion of a
-- double to int and its test against 0 are a parameter, with the machine in the record Target. The
-- stack is a list with its top first; a pop from the empty stack, a read outside it and a 17th flag
-- are `none`. Reference counts and printing are left out. The parser recurs on fuel, one unit a
-- call; five units a token and five more are enough for any tokens (Parser.Termination). A token
-- list that is at its end stays there, as the scanner does at the end of the file.
--
-- A string of the parser and the interpreter is its text with the number that is its address, which
-- stands in int_val, its place in the C union; operations on int_val read it there. The address comes
-- with the token and may be any number. Where the source reads a number as the address of a text,
-- the result is `none`.
--
-- Not modelled: variables, labels, scopes, macros and passes of the assembler: identifiers, qualified
-- names and real numbers are parsed, to OpPushVar and OpPush, but OpPushVar is not executed, and the
-- grammar of Parser.Syntax has neither; the operand syntax; strings, identifiers and
-- operators of the scanner; the reader and writer of ELF and of the other output formats; the
-- Oberon compiler oc but for its disassembler; the other tools, and the emulator em16.
pub mod Base
pub mod Buffer
pub mod Codegen
pub mod Cpu
pub mod Disasm
pub mod Interp
pub mod Parser
pub mod Scanner
pub mod Symbols
