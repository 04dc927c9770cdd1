-- ===== src/Segments/Tasks.antt =====
-- The task segments of the exceptions, from the tables that kernel/boot/processor_structs.c builds
-- to their reading in kernel/debugger.c.
use Prim.Native.Nat.{bit_or}
use advanced_operating_syste.Base.{
  ℕ, zero, suc, ◌+◌, ◌-◌, ◌*◌, ◌/◌, ◌^◌, ◌≤◌, ◌<◌, ◌≡◌, refl, ◌∙◌, ap, arith, ◌==◌, if◌then◌else◌,
  Bool-cases, inl, inr,
}
use advanced_operating_syste.Segments.{
  base_tss, trap_tss_base, handler_entries, tss_size, kernel_cs, X86Tss, fill_descriptor, fill_gate,
  trap_descriptors, setup_gdt, trap_task, gate_access, setup_idt, tss_sel_2_tss,
}
use advanced_operating_syste.Segments.Fields.{
  base_of, selector_of, access_of, fill_descriptor-fields, fill_gate-fields,
}

trap_descriptors-entry :
    (n trap_tss : ℕ) (gdt : ℕ → ℕ) (i : ℕ)
    → i < n
    → trap_descriptors n trap_tss gdt (i + 10)
      ≡ fill_descriptor (trap_tss + i * tss_size) (tss_size - 1) 137 0
unfolding trap_descriptors
trap_descriptors-entry zero trap_tss gdt i h = absurd (omega arith)
trap_descriptors-entry (suc n) trap_tss gdt i h =
    ground (arith, trap_descriptors-entry n trap_tss gdt i)

pub trap_descriptors-below :
    (n trap_tss : ℕ) (gdt : ℕ → ℕ) (j : ℕ) → j < 10 → trap_descriptors n trap_tss gdt j ≡ gdt j
unfolding trap_descriptors
trap_descriptors-below zero trap_tss gdt j h = refl
trap_descriptors-below (suc n) trap_tss gdt j h =
    ground (arith, trap_descriptors-below n trap_tss gdt j h)

-- The debugger finds the task segments: after `setup_gdt`, `tss_sel_2_tss` turns the selector of
-- the first task into the address of `tss`, and that of exception `i` into the address of its
-- segment.
pub setup_gdt-tss :
    (tss trap_tss : ℕ)
    → tss < 2 ^ 32
    → trap_tss + handler_entries * tss_size ≤ 2 ^ 32
    → (tss_sel_2_tss (setup_gdt tss trap_tss) base_tss ≡ tss)
      × ((i : ℕ)
          → i < handler_entries
          → tss_sel_2_tss (setup_gdt tss trap_tss) (trap_tss_base + 8 * i)
            ≡ trap_tss + i * tss_size)
unfolding tss_sel_2_tss setup_gdt
setup_gdt-tss tss trap_tss h k = (
  ap base_of (trap_descriptors-below 32 trap_tss _ 1 (omega arith))
      ∙ (fill_descriptor-fields tss 103 137 0 h (omega arith)).0,
  λ i lt.
      let place : (trap_tss_base + 8 * i) / 2 ^ 3 ≡ i + 10 = omega arith in
      ap (λ j. base_of (setup_gdt tss trap_tss j)) place
      ∙ ap base_of (trap_descriptors-entry 32 trap_tss _ i lt)
      ∙ (fill_descriptor-fields (trap_tss + i * tss_size) 103 137 0 (omega arith) (omega arith)).0,
)

setup_idt-entry :
    (n : ℕ) (handlers : ℕ → ℕ) (trap_stack pgdir : ℕ) (s : (ℕ → ℕ) × (ℕ → X86Tss)) (i : ℕ)
    → i < n
    → ((setup_idt n handlers trap_stack pgdir s).0 i
        ≡ fill_gate 0 (trap_tss_base + 8 * i) (gate_access i) 0)
      × ((setup_idt n handlers trap_stack pgdir s).1 i ≡ trap_task trap_stack pgdir (handlers i))
unfolding setup_idt
setup_idt-entry zero handlers trap_stack pgdir s i h = absurd (omega arith)
setup_idt-entry (suc n) handlers trap_stack pgdir s i h =
    let ih = setup_idt-entry n handlers trap_stack pgdir s i in
    (ground (arith, ih), ground (arith, ih))

gate_access-present : (i : ℕ) → bit_or (gate_access i) 128 ≡ (if i == 3 then 229 else 133)
unfolding gate_access
gate_access-present i = elim (Bool-cases (i == 3)) [ inl e ↦ rw e refl | inr e ↦ rw e refl ]

-- The gate of each of the 32 exceptions leads, through the table that `setup_gdt` builds, to its
-- own task segment, which starts its handler in the kernel's code segment; only the breakpoint's
-- gate is open to the user.
pub setup_idt-gates :
    (tss trap_tss : ℕ) (handlers : ℕ → ℕ) (trap_stack pgdir : ℕ) (s : (ℕ → ℕ) × (ℕ → X86Tss))
    (i : ℕ)
    → tss < 2 ^ 32
    → trap_tss + handler_entries * tss_size ≤ 2 ^ 32
    → i < handler_entries
    → let (idt, tasks) = setup_idt handler_entries handlers trap_stack pgdir s in
      (tss_sel_2_tss (setup_gdt tss trap_tss) (selector_of (idt i)) ≡ trap_tss + i * tss_size)
      × ((tasks i).eip ≡ handlers i)
      × ((tasks i).cs ≡ kernel_cs)
      × (access_of (idt i) ≡ (if i == 3 then 229 else 133))
unfolding trap_task
setup_idt-gates tss trap_tss handlers trap_stack pgdir s i h k lt =
    let (gate, task) = setup_idt-entry handler_entries handlers trap_stack pgdir s i lt in
    let access = gate_access-present i in
    let small : bit_or (gate_access i) 128 < 2 ^ 8 = ground (arith, access) in
    let fields =
      fill_gate-fields 0 (trap_tss_base + 8 * i) (gate_access i) 0 (omega arith) (omega arith)
        small in
    (
      ap (λ e. tss_sel_2_tss (setup_gdt tss trap_tss) (selector_of e)) gate
          ∙ ap (tss_sel_2_tss (setup_gdt tss trap_tss)) fields.1
          ∙ (setup_gdt-tss tss trap_tss h k).1 i lt,
      ap (λ t. t.eip) task,
      ap (λ t. t.cs) task,
      ap access_of gate ∙ fields.2 ∙ access,
    )
