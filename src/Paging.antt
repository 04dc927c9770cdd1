-- ===== src/Paging.antt =====
-- kernel/boot/early_mm.c: the identity mapping of the first 256 MB. The memory is its 32-bit words
-- by address; the symbols of the linker script are a record.
pub mod Directory
pub mod Range
pub mod Check
pub mod Layout
pub mod Boot
pub mod Example
mod Tests
use Prim.Native.Nat.{bit_or}
use advanced_operating_syste.Base.{
  ℕ, zero, suc, ◌+◌, ◌-◌, ◌*◌, ◌/◌, ◌%◌, ◌^◌, Bool, ◌&&◌, not, Option, none, some, List, [], ◌∷◌,
  ◌==◌, ltb, leb, if◌then◌else◌, ◌>>=◌, ◌>>◌, assert,
}

abbrev pub page_table_ro : ℕ
page_table_ro = 1

abbrev pub page_table_rw : ℕ
page_table_rw = 3

-- The addresses of the linker script, and of the two tables.
pub record Symbols : Type 0 where
  pub start : ℕ
  pub text_start : ℕ
  pub text_end : ℕ
  pub multiboot_start : ℕ
  pub multiboot_end : ℕ
  pub bootstrap_stack_start : ℕ
  pub bootstrap_stack_end : ℕ
  pub rodata_start : ℕ
  pub rodata_end : ℕ
  pub data_start : ℕ
  pub data_end : ℕ
  pub bss_start : ℕ
  pub bss_end : ℕ
  pub end : ℕ
  pub mem_end : ℕ
  pub pgdir : ℕ
  pub pgtab : ℕ

-- ASSERT_ALIGNED and ASSERT_CONSISTENT. A failed one stops the processor. The addresses are below
-- 2^31, so that the signed difference is the difference.
abbrev pub is_aligned : ℕ → Bool
is_aligned symbol = symbol / 2 ^ 12 * 2 ^ 12 == symbol

abbrev pub is_consistent : ℕ → ℕ → Bool
is_consistent start end = leb (start + 4096) end

-- One section: both ends aligned, and at least a page between them.
unfoldable pub is_section : ℕ → ℕ → Bool
is_section start end = is_aligned start && (is_aligned end && is_consistent start end)

-- `early_mm_check`. For .bss it looks at the symbols of .data again.
unfoldable pub early_mm_check : Symbols → Option (Unit {0})
early_mm_check y = do
  assert (is_aligned y.start)
  assert (is_section y.text_start y.text_end)
  assert (is_section y.multiboot_start y.multiboot_end)
  assert (is_section y.bootstrap_stack_start y.bootstrap_stack_end)
  assert (is_section y.rodata_start y.rodata_end)
  assert (is_section y.data_start y.data_end)
  assert (is_section y.data_start y.data_end)
  assert (is_consistent y.start y.end)

abbrev pub write : ℕ → ℕ → (ℕ → ℕ) → ℕ → ℕ
write a v m b = if b == a then v else m b

-- The first loop of `early_mm_fill_pgdir`, up to `n` entries, and the second one, for `n` entries
-- from `count` on.
unfoldable pub fill_present : ℕ → ℕ → ℕ → (ℕ → ℕ) → ℕ → ℕ
fill_present zero pagedir pagetab m = m
fill_present (suc n) pagedir pagetab m =
    write (pagedir + 4 * n) (bit_or (pagetab + n * 4096) 3) (fill_present n pagedir pagetab m)

unfoldable pub fill_absent : ℕ → ℕ → ℕ → (ℕ → ℕ) → ℕ → ℕ
fill_absent zero pagedir count m = m
fill_absent (suc n) pagedir count m =
    write (pagedir + 4 * (count + n)) 0 (fill_absent n pagedir count m)

unfoldable pub early_mm_fill_pgdir : ℕ → ℕ → ℕ → (ℕ → ℕ) → ℕ → ℕ
early_mm_fill_pgdir pagedir pagetab count m =
    fill_absent (1024 - count) pagedir count (fill_present count pagedir pagetab m)

-- One round of the loop: the entry of the page at `address`.
unfoldable pub map_page : ℕ → ℕ → ℕ → (ℕ → ℕ) → ℕ → ℕ
map_page pdir address flags m =
    let pd_index = address / 2 ^ 22 in
    let pt_index = address / 2 ^ 12 % 2 ^ 10 in
    let ptable = m (pdir + 4 * pd_index) / 2 ^ 12 * 2 ^ 12 in
    write (ptable + 4 * pt_index) (bit_or (address / 2 ^ 12 * 2 ^ 12) flags) m

-- The loop of `early_mm_map_region`, from `address` on; addresses have 32 bits. `none`: out of
-- fuel.
unfoldable pub map_from : ℕ → ℕ → ℕ → ℕ → ℕ → (ℕ → ℕ) → Option (ℕ → ℕ)
map_from zero pdir address end flags m = none
map_from (suc fuel) pdir address end flags m =
    let rest =
      map_from fuel pdir ((address + 4096) % 2 ^ 32) end flags (map_page pdir address flags m) in
    if ltb address end then rest else some m

-- A region: its start, its end and its flags.
pub record Region : Type 0 where
  pub first : ℕ
  pub last : ℕ
  pub flags : ℕ

abbrev pub fuel : ℕ
fuel = 2 ^ 16 + 1

unfoldable pub early_mm_map_region : ℕ → Region → (ℕ → ℕ) → Option (ℕ → ℕ)
early_mm_map_region pdir r m = map_from fuel pdir r.first r.last r.flags m

unfoldable pub map_regions : ℕ → List Region → (ℕ → ℕ) → Option (ℕ → ℕ)
map_regions pdir [] m = some m
map_regions pdir (r ∷ rs) m = do m ← early_mm_map_region pdir r m; map_regions pdir rs m

-- The calls of `early_mm_map_kernel`, in their order.
unfoldable pub regions : Symbols → List Region
regions y =
    record { first = 4096; last = y.start; flags = page_table_rw }
    ∷ record { first = y.start; last = y.text_start; flags = page_table_rw }
    ∷ record { first = y.text_start; last = y.text_end; flags = page_table_ro }
    ∷ record { first = y.multiboot_start; last = y.multiboot_end; flags = page_table_ro }
    ∷ record { first = y.rodata_start; last = y.rodata_end; flags = page_table_ro }
    ∷ record {
      first = y.bootstrap_stack_start;
      last = y.bootstrap_stack_end;
      flags = page_table_rw;
    }
    ∷ record { first = y.data_start; last = y.data_end; flags = page_table_rw }
    ∷ record { first = y.bss_start; last = y.bss_end; flags = page_table_rw }
    ∷ record { first = y.end; last = y.mem_end; flags = page_table_rw }
    ∷ []

-- The `memset` of the 64 page tables.
unfoldable pub clear_tables : ℕ → (ℕ → ℕ) → ℕ → ℕ
clear_tables pgtab m a = if leb pgtab a && ltb a (pgtab + 4096 * 64) then 0 else m a

unfoldable pub early_mm_map_kernel : Symbols → (ℕ → ℕ) → Option (ℕ → ℕ)
early_mm_map_kernel y m =
    let m1 = early_mm_fill_pgdir y.pgdir y.pgtab 64 (clear_tables y.pgtab m) in
    map_regions y.pgdir (regions y) (write y.pgtab 0 m1)
