-- ===== src/GdbSupport/Lookup.antt =====
-- kernel/gdb_serial_support.c: the addresses of one page.
use advanced_operating_syste.Base.{
  ℕ, ◌+◌, ◌-◌, ◌*◌, ◌%◌, ◌^◌, ◌≤◌, ◌<◌, ◌≡◌, inl, inr, ap, arith, Bool-cases, Option, none, some,
}
use advanced_operating_syste.GdbSupport.{
  Memory, Client, word, frame, lin2pdenum, lin2ptenum, is_valid, is_superpage, is_paging,
  lookup_page, lookup_superpage, lookup_entry, phys_addr_lookup,
}

-- The physical address alone.
abbrev pub address : Option (ℕ × ℕ) → Option ℕ
address none = none
address (some (pa, len)) = some pa

-- What a lookup gives is the rest of a page: a positive length, and bytes that follow each other.
abbrev pub Follow : (ℕ → Option (ℕ × ℕ)) → ℕ → ℕ → ℕ → Type 0
Follow lookup va pa len =
    (0 < len) × ((j : ℕ) → j < len → address (lookup (va + j)) ≡ some (pa + j))

some_pair : {a b c d : ℕ} → ◌≡◌ {A = Option (ℕ × ℕ)} (some (a, b)) (some (c, d)) → (a ≡ c) × (b ≡ d)
some_pair e = (cc, cc)

no_mapping : {c d : ℕ} → ◌≡◌ {A = Option (ℕ × ℕ)} none (some (c, d)) → ⊥
no_mapping e = cc

lookup_page-Follow :
    (m : Memory) (pde va pa len : ℕ)
    → lookup_page m pde va ≡ some (pa, len)
    → Follow (lookup_page m pde) va pa len × (len ≤ 2 ^ 22 - va % 2 ^ 22)
unfolding lookup_page
lookup_page-Follow m pde va pa len e =
    elim (Bool-cases (is_valid (word m (frame pde + 4 * lin2ptenum va)))) [
      | inl valid ↦
          let (here, rest) = some_pair (rw valid at e) in
          (
            (
              omega (arith, rest),
              λ j lt.
                  let same : lin2ptenum (va + j) ≡ lin2ptenum va = omega (arith, rest) in
                  let offs : (va + j) % 2 ^ 12 ≡ va % 2 ^ 12 + j = omega (arith, rest) in
                  rw (same, valid, offs) (ap some (omega (arith, here))),
            ),
            omega (arith, rest),
          )
      | inr absent ↦ absurd (no_mapping (rw absent at e))
    ]

lookup_superpage-Follow :
    (pde va pa len : ℕ)
    → lookup_superpage pde va ≡ some (pa, len)
    → Follow (lookup_superpage pde) va pa len × (len ≤ 2 ^ 22 - va % 2 ^ 22)
unfolding lookup_superpage
lookup_superpage-Follow pde va pa len e =
    let (here, rest) = some_pair e in
    ((omega (arith, rest), λ j lt. ap some (omega (arith, here, rest))), omega (arith, rest))

lookup_entry-Follow :
    (m : Memory) (pde va pa len : ℕ)
    → lookup_entry m pde va ≡ some (pa, len)
    → Follow (lookup_entry m pde) va pa len × (len ≤ 2 ^ 22 - va % 2 ^ 22)
unfolding lookup_entry
lookup_entry-Follow m pde va pa len e = elim (Bool-cases (is_valid pde)) [
  | inr absent ↦ absurd (no_mapping (rw absent at e))
  | inl valid ↦ elim (Bool-cases (is_superpage pde)) [
    | inl big ↦ rw (valid, big) (lookup_superpage-Follow pde va pa len (rw (valid, big) at e))
    | inr small ↦ rw (valid, small) (lookup_page-Follow m pde va pa len (rw (valid, small) at e))
  ]
]

-- The bytes up to the length that `phys_addr_lookup` gives follow each other in the memory.
pub phys_addr_lookup-Follow :
    (c : Client) (m : Memory) (va pa len : ℕ)
    → phys_addr_lookup c m va ≡ some (pa, len)
    → Follow (phys_addr_lookup c m) va pa len
unfolding phys_addr_lookup
phys_addr_lookup-Follow c m va pa len e = elim (Bool-cases (is_paging c.client_cr0)) [
  | inr off ↦
      let (here, rest) = some_pair (rw off at e) in
      (omega (arith, rest), λ j lt. rw off (ap some (omega (arith, here))))
  | inl on ↦
      let pde = word m (frame c.client_cr3 + 4 * lin2pdenum va) in
      let ((positive, bytes), short) = lookup_entry-Follow m pde va pa len (rw on at e) in
      (
        positive,
        λ j lt.
            let same : lin2pdenum (va + j) ≡ lin2pdenum va = omega (arith, short) in
            rw (on, same) (bytes j lt),
      )
]
