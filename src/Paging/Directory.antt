-- ===== src/Paging/Directory.antt =====
-- kernel/boot/early_mm.c: the page directory.
use Prim.Native.Nat.{bit_or}
use advanced_operating_syste.Base.{
  ℕ, zero, suc, ◌+◌, ◌-◌, ◌*◌, ◌/◌, ◌%◌, ◌^◌, ◌≤◌, ◌<◌, ◌≡◌, ◌∙◌, sym, ap, arith, ltb,
  if◌then◌else◌,
}
use advanced_operating_syste.Base.Bits.{field-bit_or}
use advanced_operating_syste.Paging.{fill_present, fill_absent, early_mm_fill_pgdir}

-- The tables start at page boundaries, and the directory is not among the page tables.
pub record Apart (pgdir pgtab : ℕ) : Type 0 where
  pub aligned : pgtab % 4096 ≡ 0
  pub disjoint : pgdir + 4096 ≤ pgtab

-- An entry is the address of its page table, with the flags "present" and "writable".
abbrev pub Filled : ℕ → ℕ → ℕ → (ℕ → ℕ) → Type 0
Filled pgdir pgtab count m = (i : ℕ) → i < count → m (pgdir + 4 * i) ≡ pgtab + i * 4096 + 3

entry-bit_or : (pgtab i : ℕ) → pgtab % 4096 ≡ 0 → bit_or (pgtab + i * 4096) 3 ≡ pgtab + i * 4096 + 3
entry-bit_or pgtab i h =
    let q = pgtab / 4096 + i in
    let page : pgtab + i * 4096 ≡ q * 2 ^ 12 = omega arith in
    ap (λ a. bit_or a 3) page ∙ field-bit_or 12 q 3 (omega arith) ∙ ap (λ a. a + 3) (sym page)

fill_present-Filled :
    (n pgdir pgtab : ℕ) (m : ℕ → ℕ)
    → pgtab % 4096 ≡ 0
    → Filled pgdir pgtab n (fill_present n pgdir pgtab m)
unfolding fill_present
fill_present-Filled zero pgdir pgtab m h i lt = absurd (omega arith)
fill_present-Filled (suc n) pgdir pgtab m h i lt =
    let ih = fill_present-Filled n pgdir pgtab m h in ground (arith, ih i, entry-bit_or pgtab n h)

fill_absent-zero :
    (n pgdir count : ℕ) (m : ℕ → ℕ) (i : ℕ)
    → fill_absent n pgdir count m (pgdir + 4 * i) ≡ (
        if ltb i count
        then m (pgdir + 4 * i)
        else if ltb i (count + n)
        then 0
        else m (pgdir + 4 * i))
unfolding fill_absent
fill_absent-zero zero pgdir count m i = ground arith
fill_absent-zero (suc n) pgdir count m i = ground (arith, fill_absent-zero n pgdir count m i)

-- `early_mm_fill_pgdir` gives the first `count` entries their tables, and clears the rest of the
-- 1024.
pub early_mm_fill_pgdir-Filled :
    (pgdir pgtab count : ℕ) (m : ℕ → ℕ)
    → pgtab % 4096 ≡ 0
    → count ≤ 1024
    → Filled pgdir pgtab count (early_mm_fill_pgdir pgdir pgtab count m)
      × ((i : ℕ)
          → count ≤ i
          → i < 1024
          → early_mm_fill_pgdir pgdir pgtab count m (pgdir + 4 * i) ≡ 0)
unfolding early_mm_fill_pgdir
early_mm_fill_pgdir-Filled pgdir pgtab count m h k =
    let m1 = fill_present count pgdir pgtab m in
    (
      λ i lt. ground (
        arith,
        fill_absent-zero (1024 - count) pgdir count m1 i,
        fill_present-Filled count pgdir pgtab m h i,
      ),
      λ i ge lt. ground (arith, fill_absent-zero (1024 - count) pgdir count m1 i),
    )
