-- ===== src/Start/Boot.antt =====
-- kernel/boot/boot.c: the machine when the first process runs.
use advanced_operating_syste.Base.{ℕ, ◌+◌, ◌*◌, ◌≡◌, true, false}
use advanced_operating_syste.Console.{Console}
use advanced_operating_syste.Console.Bounds.{OnScreen}
use advanced_operating_syste.Clock.{idt_addr, kernel_cs}
use advanced_operating_syste.Clock.Gate.{ReadsAs}
use advanced_operating_syste.Segments.Loaded.{IsLoaded}
use advanced_operating_syste.Paging.{page_table_ro}
use advanced_operating_syste.Paging.Range.{entry}
use advanced_operating_syste.Paging.Layout.{Within}
use advanced_operating_syste.Process.State.{Process}
use advanced_operating_syste.Process.Boot.{boot as fresh_kernel}
use advanced_operating_syste.Start.{MultibootInfo, Machine, port_value, Setting, mask_port, boot}
use advanced_operating_syste.Start.First.{Running}

-- What the machine is when the first process runs.
pub record Booted (e : Setting) (mb : MultibootInfo) (p q : ℕ) (s : Machine) : Type 0 where
  pub mb_info : s.mb_info ≡ mb
  pub interrupts : s.interrupts ≡ false
  pub paging : s.paging ≡ true
  pub mask : port_value mask_port s.ports 0 ≡ 254
  pub clock : ReadsAs s.memory 32 e.traitant_it_32 kernel_cs 36352
  pub null_page : entry e.symbols.pgtab s.memory 0 ≡ 0
  pub text :
      (i : ℕ)
      → Within e.symbols.text_start e.symbols.text_end i
      → entry e.symbols.pgtab s.memory i ≡ i * 4096 + page_table_ro
  pub kernel : Running p q s.kernel
  pub console : OnScreen s.console
  pub loaded : IsLoaded e.gdt_at idt_addr e.tss s.gdt s.registers
