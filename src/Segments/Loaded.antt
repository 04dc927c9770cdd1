-- ===== src/Segments/Loaded.antt =====
-- kernel/boot/processor_structs.c: what the registers of the processor stand for once they are
-- loaded.
use Prim.Native.Nat.{bit_or}
use advanced_operating_syste.Base.{
  ℕ, ◌+◌, ◌-◌, ◌*◌, ◌/◌, ◌%◌, ◌^◌, ◌≤◌, ◌<◌, ◌≡◌, refl, ◌∙◌, ap, arith, Bool, leb, false, true,
}
use advanced_operating_syste.Segments.{
  base_tss, kernel_cs, kernel_ds, tss_size, idt_entries, first_stack_size, Registers, scaled,
  fill_descriptor, setup_gdt, load_gdt, load_idt, setup_tss, first_task, reboot,
}
use advanced_operating_syste.Segments.Fields.{
  base_of, limit_of, access_of, size_of, fill_descriptor-fields,
}
use advanced_operating_syste.Segments.Tasks.{trap_descriptors-below}

-- The descriptor that a selector names is within the limit of the table and has the given fields.
pub record Names (gdt : ℕ → ℕ) (limit sel base size access unit : ℕ) : Type 0 where
  pub within : sel / 8 * 8 + 7 ≤ limit
  pub has_base : base_of (gdt (sel / 8)) ≡ base
  pub has_size : limit_of (gdt (sel / 8)) ≡ size
  pub has_access : access_of (gdt (sel / 8)) ≡ access
  pub has_unit : size_of (gdt (sel / 8)) ≡ unit

-- The entry of an exception or interrupt is within the limit of the interrupt table.
pub within_limit : Registers → ℕ → Bool
within_limit r i = leb (8 * i + 7) r.idt_limit

-- What the processor reads when it follows its registers: flat segments of 4 GB for code and data,
-- a task register that stands for `tss`, null selectors elsewhere, and the limit of a table of 256
-- gates.
pub record IsLoaded (gdt_at idt_at tss : ℕ) (gdt : ℕ → ℕ) (r : Registers) : Type 0 where
  pub tables : (r.gdt_base ≡ gdt_at) × (r.idt_base ≡ idt_at)
  pub code : Names gdt r.gdt_limit r.cs 0 1048575 154 12
  pub data_segment : Names gdt r.gdt_limit r.ds 0 1048575 146 12
  pub extra : Names gdt r.gdt_limit r.es 0 1048575 146 12
  pub stack : Names gdt r.gdt_limit r.ss 0 1048575 146 12
  pub task : Names gdt r.gdt_limit r.tr tss 103 137 0
  pub null : (r.ldt ≡ 0) × (r.fs ≡ 0) × (r.gs ≡ 0)
  pub gates : r.idt_limit ≡ 8 * idt_entries - 1

module _ (tss trap_tss : ℕ) where
  abbrev gdt : ℕ → ℕ
  gdt = setup_gdt tss trap_tss

  entry-code : gdt 2 ≡ fill_descriptor 0 4294967295 26 4
  unfolding setup_gdt
  entry-code = trap_descriptors-below 32 trap_tss _ 2 (omega arith)

  entry-data : gdt 3 ≡ fill_descriptor 0 4294967295 18 4
  unfolding setup_gdt
  entry-data = trap_descriptors-below 32 trap_tss _ 3 (omega arith)

  entry-task : gdt 1 ≡ fill_descriptor tss (tss_size - 1) 137 0
  unfolding setup_gdt
  entry-task = trap_descriptors-below 32 trap_tss _ 1 (omega arith)

  -- A selector whose descriptor was built by `fill_descriptor`.
  built-Names :
      (limit sel n base size access unit : ℕ)
      → sel / 8 ≡ n
      → sel / 8 * 8 + 7 ≤ limit
      → gdt n ≡ fill_descriptor base size access unit
      → base < 2 ^ 32
      → size < 2 ^ 32
      → Names gdt limit sel base
          (scaled size unit).0
          (bit_or access 128 % 2 ^ 8)
          ((scaled size unit).1 % 2 ^ 4)
  built-Names limit sel n base size access unit at within e hb hs =
      let (b, l, a, u) = fill_descriptor-fields base size access unit hb hs in
      let here = ap gdt at ∙ e in
      record {
        within = within;
        has_base = ap base_of here ∙ b;
        has_size = ap limit_of here ∙ l;
        has_access = ap access_of here ∙ a;
        has_unit = ap size_of here ∙ u;
      }

  code-Names : Names gdt 65535 kernel_cs 0 1048575 154 12
  unfolding scaled
  code-Names =
      built-Names 65535 kernel_cs 2 0 4294967295 26 4 refl (omega arith) entry-code (omega arith)
        (omega arith)

  data-Names : Names gdt 65535 kernel_ds 0 1048575 146 12
  unfolding scaled
  data-Names =
      built-Names 65535 kernel_ds 3 0 4294967295 18 4 refl (omega arith) entry-data (omega arith)
        (omega arith)

  task-Names : tss < 2 ^ 32 → Names gdt 65535 base_tss tss 103 137 0
  unfolding scaled
  task-Names h =
      built-Names 65535 base_tss 1 tss 103 137 0 refl (omega arith) entry-task h (omega arith)

-- With an address of `tss` in range, the registers that `setup_gdt`, `setup_idt` and `setup_tss`
-- load, one after the other, stand for the descriptors that `setup_gdt` has built: code and data
-- segments of 4 GB from 0 for the kernel alone, and the task segment, at the address of `tss`,
-- whose stack is the first stack and whose directory is `pgdir`. The entry of each of the 256
-- interrupts, filled or not, is then within the limit of the interrupt table, and none is after
-- `reboot`.
pub setup_tss-IsLoaded :
    (gdt_at idt_at tss trap_tss first_stack pgdir : ℕ) (before : Registers) (i : ℕ)
    → tss < 2 ^ 32
    → i < idt_entries
    → let (task, r) = setup_tss first_stack pgdir (load_idt idt_at (load_gdt gdt_at before)) in
      IsLoaded gdt_at idt_at tss (setup_gdt tss trap_tss) r
      × (task.esp0 ≡ first_stack + first_stack_size)
      × (task.cr3 ≡ pgdir)
      × (within_limit r i ≡ true)
      × (within_limit (reboot idt_at r) i ≡ false)
unfolding setup_tss load_idt load_gdt first_task reboot within_limit
setup_tss-IsLoaded gdt_at idt_at tss trap_tss first_stack pgdir before i h lt = (
  record {
    tables = (refl, refl);
    code = code-Names tss trap_tss;
    data_segment = data-Names tss trap_tss;
    extra = data-Names tss trap_tss;
    stack = data-Names tss trap_tss;
    task = task-Names tss trap_tss h;
    null = (refl, refl, refl);
    gates = refl;
  },
  refl,
  refl,
  ground arith,
  ground arith,
)
