-- ===== src/Start.antt =====
-- kernel/start.c, kernel/boot/boot.c and kernel/boot/multiboot.c: from the loader to the first
-- process. The parts of the machine are the states of the components; the screen and the tables
-- that the processor reads are kept apart from the other memory.
pub mod First
pub mod Boot
mod Tests
use advanced_operating_syste.Base.{
  ℕ, ◌+◌, ◌-◌, ◌*◌, ◌/◌, ◌%◌, ◌^◌, Bool, true, false, ◌&&◌, Option, none, some, List, [], ◌∷◌, ◌++◌,
  ◌==◌, ltb, leb, if◌then◌else◌, ◌>>=◌, ◌>>◌, assert,
}
use advanced_operating_syste.Base.Int.{pos}
use advanced_operating_syste.Console.{Console}
use advanced_operating_syste.Clock.{idt_addr, init_traitant_it, set_clock_fqc, masque_irq}
use advanced_operating_syste.Segments.{
  X86Tss, Registers, handler_entries, idt_entries, setup_gdt, load_gdt, setup_idt, load_idt,
  setup_tss, setup_pic,
}
use advanced_operating_syste.Paging.{Symbols, early_mm_check, early_mm_map_kernel}
use advanced_operating_syste.Process.State.{Kernel}
use advanced_operating_syste.Process.Calls.{Program, Allocations, Reply, init_process_stack, start}

-- The fields of `multiboot_info_t` that the kernel reads.
pub record MultibootInfo : Type 0 where
  pub flags : ℕ
  pub mem_upper : ℕ

abbrev pub multiboot_bootloader_magic : ℕ
multiboot_bootloader_magic = 732803074

pub record Machine : Type 0 where
  pub mb_info : MultibootInfo
  pub memory : ℕ → ℕ
  pub gdt : ℕ → ℕ
  pub trap_tasks : ℕ → X86Tss
  pub task : X86Tss
  pub registers : Registers
  -- The bytes sent to ports, in their order.
  pub ports : List (ℕ × ℕ)
  pub interrupts : Bool
  pub paging : Bool
  pub console : Console
  pub kernel : Kernel

-- The last byte sent to a port, or `d`.
unfoldable pub port_value : ℕ → List (ℕ × ℕ) → ℕ → ℕ
port_value port [] d = d
port_value port ((value, p) ∷ sent) d = port_value port sent (if port == p then value else d)

-- What the machine code, the linker and the allocator decide.
pub record Setting : Type 0 where
  pub symbols : Symbols
  pub mem_heap_end : ℕ
  pub gdt_at : ℕ
  pub first_stack : ℕ
  pub tss : ℕ
  pub trap_tss : ℕ
  pub trap_stack : ℕ
  pub exception_handler_tasks : ℕ → ℕ
  pub traitant_it_32 : ℕ
  pub idle : Program
  pub test6 : Program
  pub first_memory : Allocations
  pub second_memory : Allocations

-- The port of the interrupt mask.
abbrev pub mask_port : ℕ
mask_port = 33

-- "\f", "group_14@awsome_pc:~$ \n" and "test6".
abbrev pub clear_text : List ℕ
clear_text = 12 ∷ []

abbrev pub prompt_text : List ℕ
prompt_text =
    103 ∷ 114 ∷ 111 ∷ 117 ∷ 112 ∷ 95 ∷ 49 ∷ 52 ∷ 64 ∷ 97 ∷ 119 ∷ 115 ∷ 111 ∷ 109 ∷ 101 ∷ 95 ∷ 112
    ∷ 99 ∷ 58 ∷ 126 ∷ 36 ∷ 32 ∷ 10 ∷ []

abbrev pub test6_name : List ℕ
test6_name = 116 ∷ 101 ∷ 115 ∷ 116 ∷ 54 ∷ []

unfoldable pub multiboot_save : ℕ → MultibootInfo → Machine → Option Machine
multiboot_save magic mb s = do
  assert (magic == multiboot_bootloader_magic)
  some (record s { mb_info = mb })

unfoldable pub multiboot_upper_mem : Machine → Option ℕ
multiboot_upper_mem s = do
  assert (s.mb_info.flags % 2 == 1)
  some ((s.mb_info.mem_upper + 1024) % 2 ^ 32)

-- Two words for each of the first `n` entries of a table that stands at `at`.
unfoldable pub with_table : ℕ → ℕ → (ℕ → ℕ) → (ℕ → ℕ) → ℕ → ℕ
with_table at n table m a =
    let i = (a - at) / 8 in
    if leb at a && (ltb a (at + 8 * n) && (a - at) % 4 == 0)
    then (if (a - at) % 8 == 0 then table i % 2 ^ 32 else table i / 2 ^ 32)
    else m a

-- `setup_gdt`, `setup_idt`, `setup_tss` and `setup_pic`. The table of interrupts is in the memory
-- that `init_traitant_IT` writes: the linker puts `idt` at IDT_ADDR.
unfoldable pub cpu_init : Setting → Machine → Machine
cpu_init e s =
    let r = load_idt idt_addr (load_gdt e.gdt_at s.registers) in
    let (task, r) = setup_tss e.first_stack e.symbols.pgdir r in
    let (idt, trap_tasks) =
      setup_idt handler_entries e.exception_handler_tasks e.trap_stack e.symbols.pgdir
        (λ _. 0, s.trap_tasks) in
    record s {
      memory = with_table idt_addr idt_entries idt s.memory;
      gdt = setup_gdt e.tss e.trap_tss;
      trap_tasks = trap_tasks;
      task = task;
      registers = r;
      ports = s.ports ++ setup_pic;
    }

-- `memset` of the free memory, by words.
unfoldable pub blank : Setting → (ℕ → ℕ) → ℕ → ℕ
blank e m a = if leb e.symbols.data_end a && ltb a e.mem_heap_end then 0 else m a

-- `print` is `printf` on a string without conversions. The last call of `start` does not return
-- here if it gives the processor to the new process; what follows, `idle`, is the body of the first
-- process.
module _ (print : List ℕ → Console → Option Console) (e : Setting) where
  unfoldable pub kernel_start : Machine → Option (Machine × Reply)
  kernel_start s = do
    let ports = s.ports ++ set_clock_fqc
    let memory = init_traitant_it 32 e.traitant_it_32 s.memory
    mask ← masque_irq 0 false (port_value mask_port ports 0)
    kernel ← init_process_stack e.idle e.first_memory s.kernel
    console ← print clear_text s.console
    console ← print prompt_text console
    (kernel, reply) ← start e.test6 test6_name 1024 (pos 128) e.second_memory kernel
    some (
      record s {
        ports = ports ++ (mask, mask_port) ∷ [];
        memory = memory;
        interrupts = false;
        console = console;
        kernel = kernel;
      },
      reply,
    )

  unfoldable pub boot : ℕ → MultibootInfo → Machine → Option (Machine × Reply)
  boot magic mb s = do
    s ← multiboot_save magic mb s
    let s = cpu_init e (record s { memory = blank e s.memory })
    early_mm_check e.symbols
    memory ← early_mm_map_kernel e.symbols s.memory
    kernel_start (record s { memory = memory; paging = true })
