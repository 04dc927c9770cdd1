-- ===== src/Paging/Example.antt =====
-- An example for kernel/boot/early_mm.c: a kernel of one page for each section, loaded at 1 MB.
use advanced_operating_syste.Base.{ℕ, ◌≡◌, refl, some, arith}
use advanced_operating_syste.Paging.{Symbols, is_section, early_mm_check}
use advanced_operating_syste.Paging.Directory.{Apart}
use advanced_operating_syste.Paging.Check.{IsLinked}

abbrev pub small : Symbols
small = record {
  start = 1048576;
  text_start = 1052672;
  text_end = 1056768;
  multiboot_start = 1056768;
  multiboot_end = 1060864;
  bootstrap_stack_start = 1060864;
  bootstrap_stack_end = 1064960;
  rodata_start = 1064960;
  rodata_end = 1069056;
  data_start = 1069056;
  data_end = 1073152;
  bss_start = 1073152;
  bss_end = 1077248;
  end = 1077248;
  mem_end = 268435456;
  pgdir = 4096;
  pgtab = 8192;
}

abbrev pub nothing : ℕ → ℕ
nothing a = 0

pub apart : Apart 4096 8192
apart = record { aligned = refl; disjoint = omega arith }

pub small-IsLinked : IsLinked small
small-IsLinked = record {
  first_page = omega arith;
  text = omega arith;
  multiboot = omega arith;
  stack = omega arith;
  rodata = omega arith;
  data_order = omega arith;
  bss = omega arith;
  bss_aligned = refl;
  bss_order = omega arith;
  ending = omega arith;
  end_aligned = refl;
  memory = omega arith;
  size = omega arith;
  tables = apart;
}

pub checked : early_mm_check small ≡ some tt
unfolding early_mm_check is_section
checked = refl
