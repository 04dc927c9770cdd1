-- ===== src/Paging/Range.antt =====
-- kernel/boot/early_mm.c: the mapping of one region.
use Prim.Native.Nat.{bit_or}
use advanced_operating_syste.Base.{
  ℕ, zero, suc, ◌+◌, ◌*◌, ◌/◌, ◌%◌, ◌^◌, ◌≤◌, ◌<◌, ◌≡◌, refl, ◌∙◌, ap, subst, Bool, ◌&&◌, arith,
  ltb, leb, if◌then◌else◌, Ends, Bool-cases, inl, inr,
}
use advanced_operating_syste.Base.Bits.{field-bit_or}
use advanced_operating_syste.Paging.{write, map_page, map_from, Region, fuel, early_mm_map_region}
use advanced_operating_syste.Paging.Directory.{Apart, Filled}

-- The entry of a page.
abbrev pub entry : ℕ → (ℕ → ℕ) → ℕ → ℕ
entry pgtab m p = m (pgtab + 4 * p)

-- A page is in a region.
abbrev pub covers : ℕ → ℕ → ℕ → Bool
covers first last p = leb first (p * 4096) && ltb (p * 4096) last

-- The pages of a range are mapped to themselves with the flags; the others keep their entries, and
-- nothing below the page tables changes.
pub record Mapped (pgtab first last flags : ℕ) (m n : ℕ → ℕ) : Type 0 where
  pub entries :
      (p : ℕ)
      → p < 65536
      → entry pgtab n p ≡ (if covers first last p then p * 4096 + flags else entry pgtab m p)
  pub below : (a : ℕ) → a < pgtab → n a ≡ m a

module _ (pgdir pgtab flags : ℕ) (apart : Apart pgdir pgtab) (small : flags < 4096) where
  -- The page number `p` is found in the right table.
  map_page-write :
      (p : ℕ) (m : ℕ → ℕ)
      → Filled pgdir pgtab 64 m
      → p < 65536
      → map_page pgdir (p * 4096) flags m ≡ write (pgtab + 4 * p) (p * 4096 + flags) m
  unfolding map_page
  map_page-write p m filled h =
      let i = p * 4096 / 2 ^ 22 in
      let present = filled i (omega arith) in
      let table : m (pgdir + 4 * i) / 2 ^ 12 * 2 ^ 12 ≡ pgtab + i * 4096 =
        omega (arith, present, apart.aligned) in
      let place : pgtab + i * 4096 + 4 * (p * 4096 / 2 ^ 12 % 2 ^ 10) ≡ pgtab + 4 * p =
        omega arith in
      let page : p * 4096 / 2 ^ 12 * 2 ^ 12 ≡ p * 2 ^ 12 = omega arith in
      ap
        (λ t.
          write (t + 4 * (p * 4096 / 2 ^ 12 % 2 ^ 10)) (bit_or (p * 4096 / 2 ^ 12 * 2 ^ 12) flags)
            m)
        table
      ∙ ap (λ a. write a (bit_or (p * 4096 / 2 ^ 12 * 2 ^ 12) flags) m) place
      ∙ ap (λ v. write (pgtab + 4 * p) v m)
          (ap (λ a. bit_or a flags) page ∙ field-bit_or 12 p flags small)

  Filled-write :
      (a v : ℕ) (m : ℕ → ℕ)
      → Filled pgdir pgtab 64 m
      → pgtab ≤ a
      → Filled pgdir pgtab 64 (write a v m)
  Filled-write a v m filled h i lt = ground (arith, filled i, apart.disjoint)

  map_from-Mapped :
      (steps p last : ℕ) (m : ℕ → ℕ)
      → Filled pgdir pgtab 64 m
      → last ≤ 2 ^ 28
      → p ≤ 65536
      → last + 4096 ≤ (p + steps) * 4096
      → 0 < steps
      → Ends
          (λ n. Mapped pgtab (p * 4096) last flags m n)
          (map_from steps pgdir (p * 4096) last flags m)
  unfolding map_from
  map_from-Mapped zero p last m filled low page enough left = absurd (omega arith)
  map_from-Mapped (suc steps) p last m filled low page enough left =
      elim (Bool-cases (ltb (p * 4096) last)) [
        | inr done ↦
            (m, rw done refl, record { entries = λ q h. ground arith; below = λ a h. refl })
        | inl more ↦
            let m1 = write (pgtab + 4 * p) (p * 4096 + flags) m in
            let next : (p * 4096 + 4096) % 2 ^ 32 ≡ suc p * 4096 = ground arith in
            let (n, run, mapped) =
              map_from-Mapped steps (suc p) last m1
                (Filled-write (pgtab + 4 * p) (p * 4096 + flags) m filled (omega arith)) low
                (ground arith) (omega arith) (ground arith) in
            (
              n,
              rw more (
                  ap (λ k. map_from steps pgdir ((p * 4096 + 4096) % 2 ^ 32) last flags k)
                    (map_page-write p m filled (ground arith))
                  ∙ ap (λ a. map_from steps pgdir a last flags m1) next
                  ∙ run),
              record {
                entries = λ q h. mapped.entries q h ∙ ground arith;
                below = λ a h. mapped.below a h ∙ ground arith;
              },
            )
      ]

-- A region that starts at a page boundary and ends within the first 256 MB: the loop ends, and maps
-- the pages of the region, and only these, to themselves with the flags.
pub early_mm_map_region-Mapped :
    (pgdir pgtab : ℕ) (r : Region) (m : ℕ → ℕ)
    → Apart pgdir pgtab
    → Filled pgdir pgtab 64 m
    → r.flags < 4096
    → r.first % 4096 ≡ 0
    → r.first ≤ 2 ^ 28
    → r.last ≤ 2 ^ 28
    → Ends
        (λ n. Mapped pgtab r.first r.last r.flags m n × Filled pgdir pgtab 64 n)
        (early_mm_map_region pgdir r m)
unfolding early_mm_map_region
early_mm_map_region-Mapped pgdir pgtab r m apart filled small aligned low_first low_last =
    let p = r.first / 4096 in
    let start : p * 4096 ≡ r.first = omega arith in
    let Result : ℕ → Type 0 =
      λ a. Ends (λ n. Mapped pgtab a r.last r.flags m n) (map_from fuel pgdir a r.last r.flags m) in
    let (n, run, mapped) = subst Result start (
      map_from-Mapped pgdir pgtab r.flags apart small fuel p r.last m filled low_last (omega arith)
        (omega arith) (omega arith)) in
    (
      n,
      run,
      (mapped, λ i lt. mapped.below (pgdir + 4 * i) (omega (arith, apart.disjoint)) ∙ filled i lt),
    )
