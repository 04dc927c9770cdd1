-- ===== src/SystemHeap.antt =====
-- `sbrk` of kernel/mem.c and of user/lib/sbrk.c (and kernel/lib/sbrk.c), which are the same code on
-- other bounds. Addresses and the signed increment are 32-bit words.
mod Tests
use advanced_operating_syste.Base.{
  ℕ, ◌+◌, ◌-◌, ◌%◌, ◌^◌, ◌≤◌, ◌<◌, ◌≡◌, refl, ◌∙◌, ap, sym, subst, Bool, true, false, ◌||◌, Option,
  none, some, List, [], ◌∷◌, arith, ltb, leb, if◌then◌else◌, All, All-map, Bool-cases, inl, inr,
}

-- The new break, and the result; `none` is (void *)-1.
unfoldable pub sbrk : ℕ → ℕ → ℕ → ℕ × Option ℕ
sbrk heap_end curptr diff =
    let c = (curptr + diff) % 2 ^ 32 in
    if ltb c curptr || ltb heap_end c then (curptr, none) else (c, some curptr)

-- `sbrk` grants exactly the requests that fit below the end of the heap: the break moves up by the
-- request, and the old break is returned. Any other request, one to shrink the heap or one that
-- wraps around among them, is refused and changes nothing.
pub sbrk-grants :
    (heap_end curptr diff : ℕ)
    → curptr ≤ heap_end
    → heap_end < 2 ^ 32
    → diff < 2 ^ 32
    → sbrk heap_end curptr diff
      ≡ (if leb (curptr + diff) heap_end then (curptr + diff, some curptr) else (curptr, none))
unfolding sbrk
sbrk-grants heap_end curptr diff h k d = elim (Bool-cases (leb (curptr + diff) heap_end)) [
  | inl fits ↦
      let whole : (curptr + diff) % 2 ^ 32 ≡ curptr + diff = ground arith in
      let good : (ltb ((curptr + diff) % 2 ^ 32) curptr || ltb heap_end ((curptr + diff) % 2 ^ 32))
          ≡ false =
        ground (arith, whole) in
      rw (good, fits) (ap (λ c. (c, some curptr)) whole)
  | inr large ↦
      let bad : (ltb ((curptr + diff) % 2 ^ 32) curptr || ltb heap_end ((curptr + diff) % 2 ^ 32))
          ≡ true =
        ground arith in
      rw (bad, large) refl
]

-- The blocks that a sequence of requests is granted: an address and a size for each.
unfoldable pub serve : ℕ → ℕ → List ℕ → List (ℕ × ℕ)
serve heap_end curptr [] = []
serve heap_end curptr (diff ∷ rest) =
    let (next, result) = sbrk heap_end curptr diff in
    let later = serve heap_end next rest in
    elim result [ none ↦ later | some s ↦ (s, diff) ∷ later ]

-- The blocks by the result of the first request.
module _ (heap_end curptr d : ℕ) (rest : List ℕ) where
  served :
      (next : ℕ) (result : Option ℕ)
      → sbrk heap_end curptr d ≡ (next, result)
      → serve heap_end curptr (d ∷ rest) ≡ (elim result [
        | none ↦ serve heap_end next rest
        | some s ↦ (s, d) ∷ serve heap_end next rest
      ])
  unfolding serve
  served next result e =
      ap
        (λ r. elim (r.1) [
          | none ↦ serve heap_end r.0 rest
          | some s ↦ (s, d) ∷ serve heap_end r.0 rest
        ])
        e

-- Each block ends where the later ones start, or before.
abbrev pub Disjoint : List (ℕ × ℕ) → Type 0
Disjoint [] = Unit {0}
Disjoint ((a, n) ∷ bs) = All (λ b. a + n ≤ b.0) bs × Disjoint bs

-- The blocks of any sequence of requests lie one behind the other between the first break and the
-- end of the heap.
pub serve-Disjoint :
    (heap_end curptr : ℕ) (requests : List ℕ)
    → curptr ≤ heap_end
    → heap_end < 2 ^ 32
    → All (λ d. d < 2 ^ 32) requests
    → All (λ b. (curptr ≤ b.0) × (b.0 + b.1 ≤ heap_end)) (serve heap_end curptr requests)
      × Disjoint (serve heap_end curptr requests)
unfolding serve
serve-Disjoint heap_end curptr [] h k small = (tt, tt)
serve-Disjoint heap_end curptr (d ∷ rest) h k small =
    let step = sbrk-grants heap_end curptr d h k small.0 in
    let Result : List (ℕ × ℕ) → Type 0 =
      λ bs. All (λ b. (curptr ≤ b.0) × (b.0 + b.1 ≤ heap_end)) bs × Disjoint bs in
    elim (Bool-cases (leb (curptr + d) heap_end)) [
      | inl fits ↦
          let granted : sbrk heap_end curptr d ≡ (curptr + d, some curptr) = step ∙ rw fits refl in
          let (within, apart) =
            serve-Disjoint heap_end (curptr + d) rest (ground arith) k small.1 in
          subst Result (sym (served heap_end curptr d rest (curptr + d) (some curptr) granted)) (
            (
              (omega arith, ground arith),
              All-map (λ b. (curptr + d ≤ b.0) × (b.0 + b.1 ≤ heap_end))
                  (λ b. (curptr ≤ b.0) × (b.0 + b.1 ≤ heap_end)) _ (λ b g. (omega (arith, g), g.1))
                  within,
            ),
            (
              All-map (λ b. (curptr + d ≤ b.0) × (b.0 + b.1 ≤ heap_end)) (λ b. curptr + d ≤ b.0) _
                  (λ b g. g.0) within,
              apart,
            ),
          )
      | inr large ↦
          let refused : sbrk heap_end curptr d ≡ (curptr, none) = step ∙ rw large refl in
          subst Result (sym (served heap_end curptr d rest curptr none refused))
            (serve-Disjoint heap_end curptr rest h k small.1)
    ]
