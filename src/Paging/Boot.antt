-- ===== src/Paging/Boot.antt =====
-- kernel/boot/early_mm.c: the mapping of the whole kernel.
use advanced_operating_syste.Base.{
  ℕ, zero, suc, ◌+◌, ◌*◌, ◌≤◌, ◌<◌, ◌≡◌, refl, ◌∙◌, ap, some, arith, Ends,
}
use advanced_operating_syste.Paging.{
  Symbols, page_table_ro, page_table_rw, early_mm_check, write, fill_present, fill_absent,
  early_mm_fill_pgdir, clear_tables, regions, early_mm_map_kernel,
}
use advanced_operating_syste.Paging.Directory.{Apart, Filled, early_mm_fill_pgdir-Filled}
use advanced_operating_syste.Paging.Range.{entry}
use advanced_operating_syste.Paging.Check.{IsLinked, order, early_mm_check-IsChecked, Order}
use advanced_operating_syste.Paging.Layout.{
  expected, Within, map_regions-expected, regions-IsMappable, expected-first, expected-text,
  expected-rodata, expected-data, expected-free,
}

fill_present-elsewhere :
    (n pgdir pgtab : ℕ) (m : ℕ → ℕ) (a : ℕ)
    → pgdir + 4 * n ≤ a
    → fill_present n pgdir pgtab m a ≡ m a
unfolding fill_present
fill_present-elsewhere zero pgdir pgtab m a h = refl
fill_present-elsewhere (suc n) pgdir pgtab m a h =
    ground (arith, fill_present-elsewhere n pgdir pgtab m a)

fill_absent-elsewhere :
    (n pgdir count : ℕ) (m : ℕ → ℕ) (a : ℕ)
    → pgdir + 4 * (count + n) ≤ a
    → fill_absent n pgdir count m a ≡ m a
unfolding fill_absent
fill_absent-elsewhere zero pgdir count m a h = refl
fill_absent-elsewhere (suc n) pgdir count m a h =
    ground (arith, fill_absent-elsewhere n pgdir count m a)

-- The memory before the first region is mapped.
abbrev prepared : Symbols → (ℕ → ℕ) → ℕ → ℕ
prepared y m = write y.pgtab 0 (early_mm_fill_pgdir y.pgdir y.pgtab 64 (clear_tables y.pgtab m))

prepared-entry :
    (y : Symbols) (m : ℕ → ℕ) (p : ℕ)
    → Apart y.pgdir y.pgtab
    → p < 65536
    → entry y.pgtab (prepared y m) p ≡ 0
unfolding early_mm_fill_pgdir clear_tables
prepared-entry y m p apart h =
    let cleared = clear_tables y.pgtab m in
    ground (
      arith,
      apart.disjoint,
      fill_absent-elsewhere 960 y.pgdir 64 (fill_present 64 y.pgdir y.pgtab cleared)
          (y.pgtab + 4 * p),
      fill_present-elsewhere 64 y.pgdir y.pgtab cleared (y.pgtab + 4 * p),
    )

prepared-Filled :
    (y : Symbols) (m : ℕ → ℕ) → Apart y.pgdir y.pgtab → Filled y.pgdir y.pgtab 64 (prepared y m)
prepared-Filled y m apart i h = ground (
  arith,
  apart.disjoint,
  (early_mm_fill_pgdir-Filled y.pgdir y.pgtab 64 (clear_tables y.pgtab m) apart.aligned
        (omega arith)).0
      i h,
)

-- The directory leads to the page tables, and an entry is that of the last region that covers its
-- page.
pub early_mm_map_kernel-entries :
    (y : Symbols) (m : ℕ → ℕ)
    → early_mm_check y ≡ some tt
    → IsLinked y
    → Order y
      × Ends
          (λ n.
            ((p : ℕ) → p < 65536 → entry y.pgtab n p ≡ expected (regions y) p 0)
            × Filled y.pgdir y.pgtab 64 n)
          (early_mm_map_kernel y m)
unfolding early_mm_map_kernel
early_mm_map_kernel-entries y m checked l =
    let o = order y l (early_mm_check-IsChecked y checked) in
    let (n, run, (all, kept)) =
      map_regions-expected y.pgdir y.pgtab (regions y) (prepared y m) l.tables
        (prepared-Filled y m l.tables) (regions-IsMappable y o) in
    (
      o,
      (
        n,
        run,
        (λ p h. all p h ∙ ap (expected (regions y) p) (prepared-entry y m p l.tables h), kept),
      ),
    )

-- On a kernel that passes `early_mm_check` and is linked in order, `early_mm_map_kernel` ends,
-- leaves the first page unmapped, so that a null pointer faults, maps the code and the constants
-- read-only, and the data and the free memory writable, each page to itself.
pub early_mm_map_kernel-protects :
    (y : Symbols) (m : ℕ → ℕ)
    → early_mm_check y ≡ some tt
    → IsLinked y
    → Ends
        (λ n.
          (entry y.pgtab n 0 ≡ 0)
          × ((p : ℕ)
              → Within y.text_start y.text_end p
              → entry y.pgtab n p ≡ p * 4096 + page_table_ro)
          × ((p : ℕ)
              → Within y.rodata_start y.rodata_end p
              → entry y.pgtab n p ≡ p * 4096 + page_table_ro)
          × ((p : ℕ)
              → Within y.data_start y.data_end p
              → entry y.pgtab n p ≡ p * 4096 + page_table_rw)
          × ((p : ℕ) → Within y.end y.mem_end p → entry y.pgtab n p ≡ p * 4096 + page_table_rw))
        (early_mm_map_kernel y m)
unfolding regions
early_mm_map_kernel-protects y m checked l =
    let (o, (n, run, (all, kept))) = early_mm_map_kernel-entries y m checked l in
    (
      n,
      run,
      (
        all 0 (omega arith) ∙ expected-first y o 0 (omega arith),
        λ p h. all p (omega (arith, o)) ∙ expected-text y o p _ h,
        λ p h. all p (omega (arith, o)) ∙ expected-rodata y o p _ h,
        λ p h. all p (omega (arith, o)) ∙ expected-data y o p _ h,
        λ p h. all p (omega (arith, o)) ∙ expected-free y o p _ h,
      ),
    )
