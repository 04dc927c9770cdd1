-- ===== src/Segments/Tests.antt =====
-- Examples for kernel/boot/processor_structs.c: the tables at 2 MB.
use advanced_operating_syste.Base.{ℕ, ◌+◌, ◌*◌, ◌≡◌, arith, true, false}
use advanced_operating_syste.Segments.{
  X86Tss, Registers, kernel_cs, setup_gdt, setup_idt, trap_task, tss_sel_2_tss, load_gdt, load_idt,
  setup_tss, reboot,
}
use advanced_operating_syste.Segments.Fields.{access_of, selector_of}
use advanced_operating_syste.Segments.Loaded.{IsLoaded, within_limit, setup_tss-IsLoaded}
use advanced_operating_syste.Segments.Tasks.{setup_idt-gates}

abbrev handlers : ℕ → ℕ
handlers i = 1048576 + i * 16

abbrev cleared : (ℕ → ℕ) × (ℕ → X86Tss)
cleared = (λ _. 0, λ _. trap_task 0 0 0)

setup_idt-gates_example :
    (tss_sel_2_tss
        (setup_gdt 2097152 2101248)
        (selector_of ((setup_idt 32 handlers 3145728 4096 cleared).0 3))
      ≡ 2101248 + 3 * 104)
    × (((setup_idt 32 handlers 3145728 4096 cleared).1 3).eip ≡ 1048624)
    × (((setup_idt 32 handlers 3145728 4096 cleared).1 3).cs ≡ kernel_cs)
    × (access_of ((setup_idt 32 handlers 3145728 4096 cleared).0 3) ≡ 229)
setup_idt-gates_example =
    setup_idt-gates 2097152 2101248 handlers 3145728 4096 cleared 3 (omega arith) (omega arith)
      (omega arith)

abbrev reset : Registers
reset = record {
  gdt_base = 0;
  gdt_limit = 0;
  idt_base = 0;
  idt_limit = 0;
  ldt = 0;
  tr = 0;
  cs = 0;
  ds = 0;
  es = 0;
  fs = 0;
  gs = 0;
  ss = 0;
}

setup_tss-IsLoaded_example :
    let (task, r) = setup_tss 1054720 4096 (load_idt 4096 (load_gdt 65536 reset)) in
    IsLoaded 65536 4096 2097152 (setup_gdt 2097152 2101248) r
    × (task.esp0 ≡ 1054720 + 16384)
    × (task.cr3 ≡ 4096)
    × (within_limit r 32 ≡ true)
    × (within_limit (reboot 4096 r) 32 ≡ false)
setup_tss-IsLoaded_example =
    setup_tss-IsLoaded 65536 4096 2097152 2101248 1054720 4096 reset 32 (omega arith) (omega arith)
