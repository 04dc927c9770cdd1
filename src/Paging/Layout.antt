-- ===== src/Paging/Layout.antt =====
-- kernel/boot/early_mm.c: the entries that a page has after several regions.
use advanced_operating_syste.Base.{
  ℕ, zero, suc, ◌+◌, ◌*◌, ◌%◌, ◌^◌, ◌≤◌, ◌<◌, ◌≡◌, refl, ◌∙◌, ap, true, false, List, [], ◌∷◌, arith,
  if◌then◌else◌, Ends, All,
}
use advanced_operating_syste.Paging.{
  Symbols, Region, page_table_ro, page_table_rw, map_regions, regions,
}
use advanced_operating_syste.Paging.Directory.{Apart, Filled}
use advanced_operating_syste.Paging.Range.{entry, covers, early_mm_map_region-Mapped}
use advanced_operating_syste.Paging.Check.{Order}

-- The entry that a page has after some regions: that of the last region that covers it.
abbrev pub expected : List Region → ℕ → ℕ → ℕ
expected [] p w = w
expected (r ∷ rs) p w = expected rs p (if covers r.first r.last p then p * 4096 + r.flags else w)

abbrev pub IsMappable : Region → Type 0
IsMappable r = (r.flags < 4096) × (r.first % 4096 ≡ 0) × (r.first ≤ 2 ^ 28) × (r.last ≤ 2 ^ 28)

pub map_regions-expected :
    (pgdir pgtab : ℕ) (rs : List Region) (m : ℕ → ℕ)
    → Apart pgdir pgtab
    → Filled pgdir pgtab 64 m
    → All IsMappable rs
    → Ends
        (λ n.
          ((p : ℕ) → p < 65536 → entry pgtab n p ≡ expected rs p (entry pgtab m p))
          × Filled pgdir pgtab 64 n)
        (map_regions pgdir rs m)
unfolding map_regions
map_regions-expected pgdir pgtab [] m apart filled fits = (m, refl, (λ p h. refl, filled))
map_regions-expected pgdir pgtab (r ∷ rs) m apart filled fits =
    let ((small, aligned, low_first, low_last), others) = fits in
    let (n, run, (mapped, filled')) =
      early_mm_map_region-Mapped pgdir pgtab r m apart filled small aligned low_first low_last in
    let (k, rest, (all, kept)) = map_regions-expected pgdir pgtab rs n apart filled' others in
    (k, rw run rest, (λ p h. all p h ∙ ap (expected rs p) (mapped.entries p h), kept))

pub regions-IsMappable : (y : Symbols) → Order y → All IsMappable (regions y)
unfolding regions
regions-IsMappable y o = (
  (omega arith, omega arith, omega arith, omega (arith, o)),
  (
    (omega arith, omega (arith, o), omega (arith, o), omega (arith, o)),
    (
      (omega arith, omega (arith, o), omega (arith, o), omega (arith, o)),
      (
        (omega arith, omega (arith, o), omega (arith, o), omega (arith, o)),
        (
          (omega arith, omega (arith, o), omega (arith, o), omega (arith, o)),
          (
            (omega arith, omega (arith, o), omega (arith, o), omega (arith, o)),
            (
              (omega arith, omega (arith, o), omega (arith, o), omega (arith, o)),
              (
                (omega arith, omega (arith, o), omega (arith, o), omega (arith, o)),
                ((omega arith, omega (arith, o), omega (arith, o), omega (arith, o)), tt),
              ),
            ),
          ),
        ),
      ),
    ),
  ),
)

-- A page lies within a range.
abbrev pub Within : ℕ → ℕ → ℕ → Type 0
Within first last p = (first ≤ p * 4096) × (p * 4096 < last)

Misses : ℕ → Region → Type 0
Misses p r = covers r.first r.last p ≡ false

expected-outside : (rs : List Region) (p w : ℕ) → All (Misses p) rs → expected rs p w ≡ w
unfolding Misses
expected-outside [] p w h = refl
expected-outside (r ∷ rs) p w h = rw h.0 (expected-outside rs p w h.1)

-- The last region that covers a page decides.
expected-last :
    (r : Region) (rs : List Region) (p w : ℕ)
    → covers r.first r.last p ≡ true
    → All (Misses p) rs
    → expected (r ∷ rs) p w ≡ p * 4096 + r.flags
expected-last r rs p w hit h = rw hit (expected-outside rs p (p * 4096 + r.flags) h)

abbrev drop : ℕ → List Region → List Region
drop zero rs = rs
drop (suc n) [] = []
drop (suc n) (r ∷ rs) = drop n rs

module _ (y : Symbols) (o : Order y) (p : ℕ) where
  pub expected-first : p * 4096 < 4096 → expected (regions y) p 0 ≡ 0
  unfolding regions
  expected-first h = ground (arith, o)

  pub expected-text :
      (w : ℕ)
      → Within y.text_start y.text_end p
      → expected (drop 2 (regions y)) p w ≡ p * 4096 + page_table_ro
  unfolding regions Misses
  expected-text w h =
      expected-last (record { first = y.text_start; last = y.text_end; flags = page_table_ro })
        (drop 3 (regions y)) p w (ground arith)
        (
          ground (arith, o),
          (
            ground (arith, o),
            (ground (arith, o), (ground (arith, o), (ground (arith, o), (ground (arith, o), tt)))),
          ),
        )

  pub expected-rodata :
      (w : ℕ)
      → Within y.rodata_start y.rodata_end p
      → expected (drop 4 (regions y)) p w ≡ p * 4096 + page_table_ro
  unfolding regions Misses
  expected-rodata w h =
      expected-last (record { first = y.rodata_start; last = y.rodata_end; flags = page_table_ro })
        (drop 5 (regions y)) p w (ground arith)
        (ground (arith, o), (ground (arith, o), (ground (arith, o), (ground (arith, o), tt))))

  pub expected-data :
      (w : ℕ)
      → Within y.data_start y.data_end p
      → expected (drop 6 (regions y)) p w ≡ p * 4096 + page_table_rw
  unfolding regions Misses
  expected-data w h =
      expected-last (record { first = y.data_start; last = y.data_end; flags = page_table_rw })
        (drop 7 (regions y)) p w (ground arith) (ground (arith, o), (ground (arith, o), tt))

  pub expected-free :
      (w : ℕ)
      → Within y.end y.mem_end p
      → expected (drop 8 (regions y)) p w ≡ p * 4096 + page_table_rw
  unfolding regions Misses
  expected-free w h =
      expected-last (record { first = y.end; last = y.mem_end; flags = page_table_rw })
        (drop 9 (regions y)) p w (ground arith) tt
