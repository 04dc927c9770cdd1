-- ===== src/GdbSupport/Identity.antt =====
-- kernel/gdb_serial_support.c on the page tables of kernel/boot/early_mm.c.
use advanced_operating_syste.Base.{
  ℕ, ◌+◌, ◌-◌, ◌*◌, ◌/◌, ◌%◌, ◌^◌, ◌<◌, ◌≡◌, refl, ◌∙◌, sym, ap, subst, arith, true, false, none,
  some, ◌⊎◌, inl, inr, ltb, if◌then◌else◌, Bool-cases,
}
use advanced_operating_syste.Paging.{
  Symbols, regions, early_mm_check, early_mm_map_kernel, page_table_ro, page_table_rw,
}
use advanced_operating_syste.Paging.Directory.{Filled}
use advanced_operating_syste.Paging.Range.{entry}
use advanced_operating_syste.Paging.Check.{IsLinked}
use advanced_operating_syste.Paging.Layout.{
  Within, expected, expected-first, expected-text, expected-rodata, expected-data, expected-free,
}
use advanced_operating_syste.Paging.Boot.{early_mm_map_kernel-entries}
use advanced_operating_syste.GdbSupport.{
  Memory, Client, word, frame, lin2pdenum, lin2ptenum, is_valid, is_superpage, is_paging,
  phys_addr_lookup, lookup_entry, lookup_page,
}

-- The bytes hold the words.
abbrev pub Holds : Memory → (ℕ → ℕ) → Type 0
Holds b n = (a : ℕ) → a % 4 ≡ 0 → word b a ≡ n a

some_inj : {a b : ℕ → ℕ} → some a ≡ some b → a ≡ b
some_inj e = cc

-- A page directory at `pgdir` that leads to the 64 tables from `pgtab` on, and a client that uses
-- it.
module _ (c : Client) (b : Memory) (pgtab : ℕ) (n : ℕ → ℕ) (on : is_paging c.client_cr0 ≡ true)
    (page : c.client_cr3 % 4096 ≡ 0) (aligned : pgtab % 4096 ≡ 0)
    (filled : Filled c.client_cr3 pgtab 64 n) (holds : Holds b n) where
  -- A lookup reads the entry of the page.
  lookup_entry_of :
      (v : ℕ)
      → v < 2 ^ 28
      → phys_addr_lookup c b v ≡ lookup_page b (pgtab + v / 2 ^ 22 * 4096 + 3) v
  unfolding phys_addr_lookup lookup_entry
  lookup_entry_of v low =
      let i = v / 2 ^ 22 in
      let few : lin2pdenum v ≡ i = omega arith in
      let base : frame c.client_cr3 ≡ c.client_cr3 = omega arith in
      let pde : word b (c.client_cr3 + 4 * i) ≡ pgtab + i * 4096 + 3 =
        holds (c.client_cr3 + 4 * i) (omega arith) ∙ filled i (omega arith) in
      let valid : is_valid (pgtab + i * 4096 + 3) ≡ true = ground arith in
      let small : is_superpage (pgtab + i * 4096 + 3) ≡ false = ground arith in
      rw (on, few, base, pde, valid, small) refl

  pte :
      (v : ℕ)
      → v < 2 ^ 28
      → word b (frame (pgtab + v / 2 ^ 22 * 4096 + 3) + 4 * lin2ptenum v) ≡ entry pgtab n (v / 4096)
  pte v low =
      let a = frame (pgtab + v / 2 ^ 22 * 4096 + 3) + 4 * lin2ptenum v in
      let place : a ≡ pgtab + 4 * (v / 4096) = omega arith in
      ap (word b) place ∙ holds (pgtab + 4 * (v / 4096)) (omega arith)

  lookup-mapped :
      (v flags : ℕ)
      → v < 2 ^ 28
      → flags % 2 ≡ 1
      → flags < 4096
      → entry pgtab n (v / 4096) ≡ v / 4096 * 4096 + flags
      → phys_addr_lookup c b v ≡ some (v, 4096 - v % 4096)
  unfolding lookup_page
  lookup-mapped v flags low odd small e =
      let read = pte v low ∙ e in
      let valid : is_valid (v / 4096 * 4096 + flags) ≡ true = ground arith in
      let back : frame (v / 4096 * 4096 + flags) + v % 2 ^ 12 ≡ v = omega arith in
      lookup_entry_of v low ∙ rw (read, valid, back) refl

  lookup-absent :
      (v : ℕ) → v < 2 ^ 28 → entry pgtab n (v / 4096) ≡ 0 → phys_addr_lookup c b v ≡ none
  unfolding lookup_page
  lookup-absent v low e = let read = pte v low ∙ e in lookup_entry_of v low ∙ rw read refl

-- The addresses of which `early_mm_map_kernel` says something: the first page, the sections and the free memory.
abbrev pub IsKnown : Symbols → ℕ → Type 0
IsKnown y v =
    (v < 4096)
    ⊎ (Within y.text_start y.text_end (v / 4096)
        ⊎ (Within y.rodata_start y.rodata_end (v / 4096)
            ⊎ (Within y.data_start y.data_end (v / 4096) ⊎ Within y.end y.mem_end (v / 4096))))

-- The two kinds of addresses.
lookups :
    (y : Symbols) (m n : ℕ → ℕ) (b : Memory) (c : Client)
    → early_mm_check y ≡ some tt
    → IsLinked y
    → early_mm_map_kernel y m ≡ some n
    → Holds b n
    → is_paging c.client_cr0 ≡ true
    → c.client_cr3 ≡ y.pgdir
    → y.pgdir % 4096 ≡ 0
    → ((v : ℕ) → v < 4096 → phys_addr_lookup c b v ≡ none)
      × ((v : ℕ)
          → Within y.text_start y.text_end (v / 4096)
            ⊎ (Within y.rodata_start y.rodata_end (v / 4096)
                ⊎ (Within y.data_start y.data_end (v / 4096) ⊎ Within y.end y.mem_end (v / 4096)))
          → phys_addr_lookup c b v ≡ some (v, 4096 - v % 4096))
unfolding regions
lookups y m n b c checked l ran holds on cr3 page =
    let (o, (k, run, after)) = early_mm_map_kernel-entries y m checked l in
    let same : k ≡ n = some_inj (sym run ∙ ran) in
    let (all, kept) =
      subst
        (λ n.
          ((p : ℕ) → p < 65536 → entry y.pgtab n p ≡ expected (regions y) p 0)
          × Filled y.pgdir y.pgtab 64 n)
        same after in
    let aligned : c.client_cr3 % 4096 ≡ 0 = rw cr3 page in
    let filled = subst (λ d. Filled d y.pgtab 64 n) (sym cr3) kept in
    let identity = lookup-mapped c b y.pgtab n on aligned l.tables.aligned filled holds in
    let absent = lookup-absent c b y.pgtab n on aligned l.tables.aligned filled holds in
    (
      λ v low.
          absent v (omega arith)
            (all (v / 4096) (omega arith) ∙ expected-first y o (v / 4096) (omega arith)),
      λ v section. elim section [
        | inl h ↦
            identity v page_table_ro (omega (arith, o, h)) refl (omega arith)
              (all (v / 4096) (omega (arith, o, h)) ∙ expected-text y o (v / 4096) _ h)
        | inr (inl h) ↦
            identity v page_table_ro (omega (arith, o, h)) refl (omega arith)
              (all (v / 4096) (omega (arith, o, h)) ∙ expected-rodata y o (v / 4096) _ h)
        | inr (inr (inl h)) ↦
            identity v page_table_rw (omega (arith, o, h)) refl (omega arith)
              (all (v / 4096) (omega (arith, o, h)) ∙ expected-data y o (v / 4096) _ h)
        | inr (inr (inr h)) ↦
            identity v page_table_rw (omega (arith, o, h)) refl (omega arith)
              (all (v / 4096) (omega (arith, o, h)) ∙ expected-free y o (v / 4096) _ h)
      ],
    )

-- In a kernel that passes `early_mm_check` and is linked in order, a debugger of a task that uses
-- the page tables of `early_mm_map_kernel` finds nothing in the first page, and finds the code, the
-- constants, the data and the free memory at their own addresses, up to the end of the page.
pub phys_addr_lookup-identity :
    (y : Symbols) (m n : ℕ → ℕ) (b : Memory) (c : Client) (v : ℕ)
    → early_mm_check y ≡ some tt
    → IsLinked y
    → early_mm_map_kernel y m ≡ some n
    → Holds b n
    → is_paging c.client_cr0 ≡ true
    → c.client_cr3 ≡ y.pgdir
    → y.pgdir % 4096 ≡ 0
    → IsKnown y v
    → phys_addr_lookup c b v ≡ (if ltb v 4096 then none else some (v, 4096 - v % 4096))
phys_addr_lookup-identity y m n b c v checked l ran holds on cr3 page known =
    let (first, sections) = lookups y m n b c checked l ran holds on cr3 page in
    elim (Bool-cases (ltb v 4096)) [
      | inl low ↦ rw low (first v (ground arith))
      | inr high ↦ elim known [
        | inl low ↦ absurd (ground (arith, low, high))
        | inr section ↦ rw high (sections v section)
      ]
    ]
