-- ===== src/Paging/Check.antt =====
-- kernel/boot/early_mm.c: what the checks on the symbols establish.
use advanced_operating_syste.Base.{
  ℕ, ◌+◌, ◌%◌, ◌^◌, ◌≤◌, ◌≡◌, refl, Bool, true, false, some, arith, >>=-eq-some, assert,
}
use advanced_operating_syste.Paging.{Symbols, is_section, is_aligned, early_mm_check}
use advanced_operating_syste.Paging.Directory.{Apart}

-- What the linker script sees to and `early_mm_check` does not look at: the order of the sections,
-- the alignment of .bss and of the end, the memory that there is, and the tables.
pub record IsLinked (y : Symbols) : Type 0 where
  pub first_page : 4096 ≤ y.start
  pub text : y.start ≤ y.text_start
  pub multiboot : y.text_end ≤ y.multiboot_start
  pub stack : y.multiboot_end ≤ y.bootstrap_stack_start
  pub rodata : y.bootstrap_stack_end ≤ y.rodata_start
  pub data_order : y.rodata_end ≤ y.data_start
  pub bss : y.data_end ≤ y.bss_start
  pub bss_aligned : y.bss_start % 4096 ≡ 0
  pub bss_order : y.bss_start ≤ y.bss_end
  pub ending : y.bss_end ≤ y.end
  pub end_aligned : y.end % 4096 ≡ 0
  pub memory : y.end ≤ y.mem_end
  pub size : y.mem_end ≤ 2 ^ 28
  pub tables : Apart y.pgdir y.pgtab

-- What `early_mm_check` establishes.
pub record IsChecked (y : Symbols) : Type 0 where
  pub start : y.start % 4096 ≡ 0
  pub text :
      (y.text_start % 4096 ≡ 0) × (y.text_end % 4096 ≡ 0) × (y.text_start + 4096 ≤ y.text_end)
  pub multiboot :
      (y.multiboot_start % 4096 ≡ 0)
      × (y.multiboot_end % 4096 ≡ 0)
      × (y.multiboot_start + 4096 ≤ y.multiboot_end)
  pub stack :
      (y.bootstrap_stack_start % 4096 ≡ 0)
      × (y.bootstrap_stack_end % 4096 ≡ 0)
      × (y.bootstrap_stack_start + 4096 ≤ y.bootstrap_stack_end)
  pub rodata :
      (y.rodata_start % 4096 ≡ 0)
      × (y.rodata_end % 4096 ≡ 0)
      × (y.rodata_start + 4096 ≤ y.rodata_end)
  pub data_section :
      (y.data_start % 4096 ≡ 0) × (y.data_end % 4096 ≡ 0) × (y.data_start + 4096 ≤ y.data_end)

assert-true : (b : Bool) (r : Unit {0}) → assert b ≡ some r → b ≡ true
assert-true true r e = refl
assert-true false r e = cc

section-facts : (a b : ℕ) → is_section a b ≡ true → (a % 4096 ≡ 0) × (b % 4096 ≡ 0) × (a + 4096 ≤ b)
unfolding is_section
section-facts a b h = (ground arith, ground arith, ground arith)

pub early_mm_check-IsChecked : (y : Symbols) → early_mm_check y ≡ some tt → IsChecked y
unfolding early_mm_check
early_mm_check-IsChecked y e =
    let (r1, e1, e) = >>=-eq-some (assert (is_aligned y.start)) _ e in
    let (r2, e2, e) = >>=-eq-some (assert (is_section y.text_start y.text_end)) _ e in
    let (r3, e3, e) = >>=-eq-some (assert (is_section y.multiboot_start y.multiboot_end)) _ e in
    let (r4, e4, e) =
      >>=-eq-some (assert (is_section y.bootstrap_stack_start y.bootstrap_stack_end)) _ e in
    let (r5, e5, e) = >>=-eq-some (assert (is_section y.rodata_start y.rodata_end)) _ e in
    let (r6, e6, e) = >>=-eq-some (assert (is_section y.data_start y.data_end)) _ e in
    let whole = assert-true (is_aligned y.start) r1 e1 in
    record {
      start = ground arith;
      text = section-facts y.text_start y.text_end (assert-true _ r2 e2);
      multiboot = section-facts y.multiboot_start y.multiboot_end (assert-true _ r3 e3);
      stack = section-facts y.bootstrap_stack_start y.bootstrap_stack_end (assert-true _ r4 e4);
      rodata = section-facts y.rodata_start y.rodata_end (assert-true _ r5 e5);
      data_section = section-facts y.data_start y.data_end (assert-true _ r6 e6);
    }

-- All that is known of the addresses, as one tuple.
abbrev pub Order : Symbols → Type 0
Order y =
    (4096 ≤ y.start)
    × (y.start % 4096 ≡ 0)
    × (y.start ≤ y.text_start)
    × ((y.text_start % 4096 ≡ 0) × (y.text_end % 4096 ≡ 0) × (y.text_start + 4096 ≤ y.text_end))
    × (y.text_end ≤ y.multiboot_start)
    × ((y.multiboot_start % 4096 ≡ 0)
        × (y.multiboot_end % 4096 ≡ 0)
        × (y.multiboot_start + 4096 ≤ y.multiboot_end))
    × (y.multiboot_end ≤ y.bootstrap_stack_start)
    × ((y.bootstrap_stack_start % 4096 ≡ 0)
        × (y.bootstrap_stack_end % 4096 ≡ 0)
        × (y.bootstrap_stack_start + 4096 ≤ y.bootstrap_stack_end))
    × (y.bootstrap_stack_end ≤ y.rodata_start)
    × ((y.rodata_start % 4096 ≡ 0)
        × (y.rodata_end % 4096 ≡ 0)
        × (y.rodata_start + 4096 ≤ y.rodata_end))
    × (y.rodata_end ≤ y.data_start)
    × ((y.data_start % 4096 ≡ 0) × (y.data_end % 4096 ≡ 0) × (y.data_start + 4096 ≤ y.data_end))
    × (y.data_end ≤ y.bss_start)
    × (y.bss_start % 4096 ≡ 0)
    × (y.bss_start ≤ y.bss_end)
    × (y.bss_end ≤ y.end)
    × (y.end % 4096 ≡ 0)
    × (y.end ≤ y.mem_end)
    × (y.mem_end ≤ 2 ^ 28)

pub order : (y : Symbols) → IsLinked y → IsChecked y → Order y
order y l k = (
  l.first_page, k.start, l.text, k.text, l.multiboot, k.multiboot, l.stack, k.stack, l.rodata,
  k.rodata, l.data_order, k.data_section, l.bss, l.bss_aligned, l.bss_order, l.ending,
  l.end_aligned, l.memory, l.size,
)
