-- ===== src/Debugger/Tests.antt =====
-- Examples for kernel/debugger.c.
use advanced_operating_syste.Base.{ℕ, ◌%◌, false, [], ◌∷◌, refl, ◌≡◌}
use advanced_operating_syste.Debugger.{gdb_cont, GdbState, Task}
use advanced_operating_syste.Debugger.Dump.{Trap, returned, trap_keys, trap_handler}

abbrev registers : GdbState
registers = record {
  eax = 1;
  ecx = 2;
  edx = 3;
  ebx = 4;
  esp = 5;
  ebp = 6;
  esi = 7;
  edi = 8;
  eip = 9;
  eflags = 2;
  cs = 16;
  ss = 24;
  ds = 24;
  es = 24;
  fs = 0;
  gs = 0;
}

abbrev task : Task
task = record {
  registers = registers;
  links = record {
    back_link = 8;
    esp0 = 4096;
    ss0 = 24;
    esp1 = 0;
    ss1 = 0;
    esp2 = 0;
    ss2 = 0;
    cr3 = 8192;
    ldt = 0;
    trace_trap = 0;
  };
}

abbrev trap : Trap
trap = record {
  trapno = 8;
  error_code = 0;
  at = 1048576;
  task = task;
  text = λ _. 32;
  converse = λ signal state. (gdb_cont, state);
}

abbrev screen : ℕ → ℕ
screen a = a % 256

-- That run ends, with the screen as it was.
leaves :
    (n : ℕ → ℕ) × (trap_handler trap false (57 ∷ 185 ∷ 57 ∷ 57 ∷ 185 ∷ 23 ∷ 151 ∷ []) screen
      ≡ returned n (false, task))
unfolding trap_handler trap_keys
leaves = (_, refl)
