-- ===== src/Segments.antt =====
-- kernel/boot/processor_structs.c and shared/segment.h: the descriptor tables of the processor, and
-- `tss_sel_2_tss` of kernel/debugger.c, which reads them. A table is its entries by index.
pub mod Fields
pub mod Tasks
pub mod Loaded
mod Tests
use Prim.Native.Nat.{bit_or}
use advanced_operating_syste.Base.{
  ℕ, zero, suc, ◌+◌, ◌-◌, ◌*◌, ◌/◌, ◌%◌, ◌^◌, Bool, List, [], ◌∷◌, ◌==◌, ltb, if◌then◌else◌,
}

abbrev pub base_tss : ℕ
base_tss = 8

abbrev pub kernel_cs : ℕ
kernel_cs = 16

abbrev pub kernel_ds : ℕ
kernel_ds = 24

abbrev pub user_cs : ℕ
user_cs = 67

abbrev pub user_ds : ℕ
user_ds = 75

abbrev pub trap_tss_base : ℕ
trap_tss_base = 80

abbrev pub handler_entries : ℕ
handler_entries = 32

-- sizeof(struct x86_tss)
abbrev pub tss_size : ℕ
tss_size = 104

-- The fields that the three `setup` functions write; the rest is zero.
pub record X86Tss : Type 0 where
  pub esp0 : ℕ
  pub ss0 : ℕ
  pub cr3 : ℕ
  pub eip : ℕ
  pub eflags : ℕ
  pub esp : ℕ
  pub cs : ℕ
  pub ss : ℕ
  pub ds : ℕ
  pub es : ℕ
  pub io_bit_map_offset : ℕ

-- FIRST_STACK_SIZE, GDT_ENTRIES and IDT_ENTRIES.
abbrev pub first_stack_size : ℕ
first_stack_size = 16384

abbrev pub gdt_entries : ℕ
gdt_entries = 8192

abbrev pub idt_entries : ℕ
idt_entries = 256

-- The registers that are loaded: the tables with their limits, the task and the segments.
pub record Registers : Type 0 where
  pub gdt_base : ℕ
  pub gdt_limit : ℕ
  pub idt_base : ℕ
  pub idt_limit : ℕ
  pub ldt : ℕ
  pub tr : ℕ
  pub cs : ℕ
  pub ds : ℕ
  pub es : ℕ
  pub fs : ℕ
  pub gs : ℕ
  pub ss : ℕ

-- The limit and the size bits in the units that the descriptor has: bytes, or pages above 1 MB.
unfoldable pub scaled : ℕ → ℕ → ℕ × ℕ
scaled limit sizebits =
    if ltb 1048575 limit then (limit / 2 ^ 12, bit_or sizebits 8) else (limit, sizebits)

unfoldable pub fill_descriptor : ℕ → ℕ → ℕ → ℕ → ℕ
fill_descriptor base limit access sizebits =
    let (limit, sizebits) = scaled limit sizebits in
    let p0 = limit % 2 ^ 16 + base % 2 ^ 16 * 2 ^ 16 in
    let p1 = base / 2 ^ 16 % 2 ^ 8 in
    let p1 = bit_or p1 (bit_or access 128 % 2 ^ 8 * 2 ^ 8) in
    let p1 = bit_or p1 (limit / 2 ^ 16 % 2 ^ 4 * 2 ^ 16) in
    let p1 = bit_or p1 (sizebits % 2 ^ 4 * 2 ^ 20) in
    let p1 = bit_or p1 (base / 2 ^ 24 % 2 ^ 8 * 2 ^ 24) in bit_or (p1 * 2 ^ 32) p0

unfoldable pub fill_gate : ℕ → ℕ → ℕ → ℕ → ℕ
fill_gate offset selector access word_count =
    let p0 = bit_or (offset % 2 ^ 16) (selector * 2 ^ 16) in
    let p1 = bit_or (word_count % 2 ^ 4) (bit_or access 128 * 2 ^ 8) in
    let p1 = bit_or p1 (offset / 2 ^ 16 % 2 ^ 16 * 2 ^ 16) in bit_or (p1 * 2 ^ 32) p0

abbrev pub put : ℕ → ℕ → (ℕ → ℕ) → ℕ → ℕ
put i v table j = if j == i then v else table j

-- The loop of `setup_gdt`, after `n` rounds.
unfoldable pub trap_descriptors : ℕ → ℕ → (ℕ → ℕ) → ℕ → ℕ
trap_descriptors zero trap_tss gdt = gdt
trap_descriptors (suc n) trap_tss gdt =
    put (n + trap_tss_base / 8) (fill_descriptor (trap_tss + n * tss_size) (tss_size - 1) 137 0)
      (trap_descriptors n trap_tss gdt)

-- The table that `setup_gdt` builds, from the addresses of `tss` and `trap_tss`; it starts cleared.
-- The access bytes are 0x89 (task segment), 0x1a and 0x12 (kernel), 0x7a and 0x72 (user).
unfoldable pub setup_gdt : ℕ → ℕ → ℕ → ℕ
setup_gdt tss trap_tss =
    let gdt = put (base_tss / 8) (fill_descriptor tss (tss_size - 1) 137 0) (λ _. 0) in
    let gdt = put (kernel_cs / 8) (fill_descriptor 0 4294967295 26 4) gdt in
    let gdt = put (kernel_ds / 8) (fill_descriptor 0 4294967295 18 4) gdt in
    let gdt = put (user_cs / 8) (fill_descriptor 0 4294967295 122 4) gdt in
    let gdt = put (user_ds / 8) (fill_descriptor 0 4294967295 114 4) gdt in
    trap_descriptors handler_entries trap_tss gdt

-- The end of `setup_gdt`: the registers, from the address of `gdt`. A pseudo descriptor has 16 bits
-- for the limit.
unfoldable pub load_gdt : ℕ → Registers → Registers
load_gdt gdt r = record r {
  gdt_base = gdt;
  gdt_limit = (8 * gdt_entries - 1) % 2 ^ 16;
  ldt = 0;
  cs = kernel_cs;
  ds = kernel_ds;
  es = kernel_ds;
  fs = 0;
  gs = 0;
  ss = kernel_ds;
}

-- The task segment of an exception, as `setup_idt` fills it.
unfoldable pub trap_task : ℕ → ℕ → ℕ → X86Tss
trap_task trap_stack pgdir handler = record {
  esp0 = trap_stack + 16384;
  ss0 = kernel_ds;
  cr3 = pgdir;
  eip = handler;
  eflags = 2;
  esp = trap_stack + 16384;
  cs = kernel_cs;
  ss = kernel_ds;
  ds = kernel_ds;
  es = kernel_ds;
  io_bit_map_offset = tss_size;
}

-- The access byte of a task gate; the user may raise exception 3, the breakpoint.
unfoldable pub gate_access : ℕ → ℕ
gate_access i = 5 + (if i == 3 then 96 else 0)

-- The loop of `setup_idt`, after `n` rounds: the gates, and the task segments by number.
unfoldable pub setup_idt : ℕ → (ℕ → ℕ) → ℕ → ℕ → (ℕ → ℕ) × (ℕ → X86Tss) → (ℕ → ℕ) × (ℕ → X86Tss)
setup_idt zero handlers trap_stack pgdir s = s
setup_idt (suc n) handlers trap_stack pgdir s =
    let (idt, tasks) = setup_idt n handlers trap_stack pgdir s in
    (
      put n (fill_gate 0 (trap_tss_base + 8 * n) (gate_access n) 0) idt,
      λ i. if i == n then trap_task trap_stack pgdir (handlers n) else tasks i,
    )

-- The end of `setup_idt`, from the address of `idt`.
unfoldable pub load_idt : ℕ → Registers → Registers
load_idt idt r = record r { idt_base = idt; idt_limit = (8 * idt_entries - 1) % 2 ^ 16 }

-- The task segment that `setup_tss` fills, all but four of its fields cleared.
unfoldable pub first_task : ℕ → ℕ → X86Tss
first_task first_stack pgdir = record {
  esp0 = first_stack + first_stack_size;
  ss0 = kernel_ds;
  cr3 = pgdir;
  eip = 0;
  eflags = 0;
  esp = 0;
  cs = 0;
  ss = 0;
  ds = 0;
  es = 0;
  io_bit_map_offset = tss_size;
}

-- `setup_tss`: the task segment and the task register.
unfoldable pub setup_tss : ℕ → ℕ → Registers → X86Tss × Registers
setup_tss first_stack pgdir r = (first_task first_stack pgdir, record r { tr = base_tss })

-- `reboot`, up to the interrupt that it raises: `idt` with a limit of one byte.
unfoldable pub reboot : ℕ → Registers → Registers
reboot idt r = record r { idt_base = idt; idt_limit = 1 }

-- What `setup_pic` sends: a byte and a port.
unfoldable pub setup_pic : List (ℕ × ℕ)
setup_pic =
    (17, 32)
    ∷ (32, 33)
    ∷ (4, 33)
    ∷ (1, 33)
    ∷ (17, 160)
    ∷ (40, 161)
    ∷ (2, 161)
    ∷ (1, 161)
    ∷ (32, 32)
    ∷ (32, 160)
    ∷ (255, 33)
    ∷ (255, 161)
    ∷ []

-- debugger.c: the address of the task segment that a selector stands for: 24 bits from byte 2 of
-- the descriptor on, and byte 7.
unfoldable pub tss_sel_2_tss : (ℕ → ℕ) → ℕ → ℕ
tss_sel_2_tss gdt sel =
    let entry = gdt (sel / 2 ^ 3) in entry / 2 ^ 16 % 2 ^ 24 + entry / 2 ^ 56 % 2 ^ 8 * 2 ^ 24
