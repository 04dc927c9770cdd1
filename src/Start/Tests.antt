-- ===== src/Start/Tests.antt =====
-- Examples for kernel/start.c, kernel/boot/boot.c and kernel/boot/multiboot.c.
use advanced_operating_syste.Base.{
  ℕ, ◌+◌, ◌*◌, ◌≡◌, refl, some, none, List, [], ◌∷◌, Option, ◌>>=◌, false,
}
use advanced_operating_syste.Console.{Console, traite_car}
use advanced_operating_syste.Segments.{trap_task}
use advanced_operating_syste.Paging.Example.{small, nothing}
use advanced_operating_syste.Process.State.{Process, chosen}
use advanced_operating_syste.Process.Calls.{Program, new_process}
use advanced_operating_syste.Process.Boot.{boot as fresh_kernel}
use advanced_operating_syste.Base.Int.{pos}
use advanced_operating_syste.Start.{
  MultibootInfo, Machine, Setting, multiboot_save, multiboot_upper_mem, boot,
}

-- A `printf` of the bytes, one after the other.
type_bytes : List ℕ → Console → Option Console
unfolding traite_car
type_bytes [] s = some s
type_bytes (c ∷ cs) s = traite_car c s >>= type_bytes cs

abbrev program : Program
program = record { code = 1060864; arg = 0; hdl_ret = 1060900 }

abbrev setting : Setting
setting = record {
  symbols = small;
  mem_heap_end = 268435456;
  gdt_at = 65536;
  first_stack = 1054720;
  tss = 1073152;
  trap_tss = 1073408;
  trap_stack = 1076000;
  exception_handler_tasks = λ i. 1052672 + 16 * i;
  traitant_it_32 = 1053184;
  idle = program;
  test6 = program;
  first_memory = record { process_at = some 1077248; stack_at = some 1081344; child_at = none };
  second_memory = record {
    process_at = some 1089536;
    stack_at = some 1093632;
    child_at = some 1101824;
  };
}

abbrev info : MultibootInfo
info = record { flags = 1; mem_upper = 261120 }

abbrev procs : ℕ → Process
procs _ = new_process (pos 0) [] chosen

abbrev machine : Machine
machine = record {
  mb_info = record { flags = 0; mem_upper = 0 };
  memory = nothing;
  gdt = nothing;
  trap_tasks = λ _. trap_task 0 0 0;
  task = trap_task 0 0 0;
  registers = record {
    gdt_base = 0;
    gdt_limit = 0;
    idt_base = 0;
    idt_limit = 0;
    ldt = 0;
    tr = 0;
    cs = 0;
    ds = 0;
    es = 0;
    fs = 0;
    gs = 0;
    ss = 0;
  };
  ports = [];
  interrupts = false;
  paging = false;
  console = record { lig = 0; col = 0; screen = nothing; cursor = (0, 0) };
  kernel = fresh_kernel procs;
}

-- Another loader stops at the assertion, and a loaded machine knows its memory.
other_loader : boot type_bytes setting 0 info machine ≡ none
unfolding boot multiboot_save
other_loader = refl

upper_mem : multiboot_upper_mem (record machine { mb_info = info }) ≡ some 262144
unfolding multiboot_upper_mem
upper_mem = refl
