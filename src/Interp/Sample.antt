-- ===== src/Interp/Sample.antt =====
-- A target and a state, for the tests of the interpreter and of the parser.
use tools.Base.{true, false, [], ◌==◌}
use tools.Cpu.{em_816}
use tools.Codegen.State.{State}
use tools.Interp.Emit.{Target}
use tools.Interp.Run.{Interp}

abbrev pub target : Target
target = record { machine = em_816; real_int = λ n. n; real_is_zero = λ n. n == 0 }

abbrev pub empty_section : State
empty_section = record {
  section = record { bss = false; sh_addr = 0x8000; bytes = [] };
  addr = 0x8000;
  longa = false;
  longi = false;
  reloc = [];
  current_pass = 0;
  diagnostics = [];
}

abbrev pub start : Interp
start = record {
  codegen = empty_section;
  stack = [];
  exec = true;
  outer = [];
  last_exec = true;
  pass = 0;
  error_count = 0;
}
