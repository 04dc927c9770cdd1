-- ===== src/HashTable/Search.antt =====
-- kernel/hash.c: where a search ends, by the slots on its way.
use Prim.Native.Nat.{bit_and}
use advanced_operating_syste.Base.{
  ℕ, zero, suc, ◌+◌, ◌*◌, ◌/◌, ◌%◌, ◌^◌, ◌≤◌, ◌<◌, ◌≡◌, inl, inr, refl, ◌∙◌, ap, true, false,
  Option, none, some, List, arith, ◌==◌, get_elem?, set, length, get_elem?-set, get_elem?-some,
  or_else, Bool-cases,
}
use advanced_operating_syste.HashTable.{
  HashMap, HashSlot, sl_empty, sl_active, matches, probe, is_active,
}
use advanced_operating_syste.HashTable.Probe.{
  Has, step-empty, step-hit, step-miss, step-deleted, mode-cases,
}
use advanced_operating_syste.HashTable.Route.{index_at}
use advanced_operating_syste.HashTable.Reference.{is_used}

-- A slot that is not empty.
abbrev pub Used : List HashSlot → ℕ → Type 0
Used t i = (s : HashSlot) × (get_elem? t i ≡ some s) × (is_used s.mode ≡ true)

-- A search gets to the slot `j` after `n` rounds, past slots that are not empty.
abbrev pub Route : List HashSlot → ℕ → ℕ → ℕ → ℕ → ℕ → Type 0
Route t mask zero index perturb j = bit_and index mask ≡ j
Route t mask (suc n) index perturb j =
    Used t (bit_and index mask)
    × Route t mask n ((5 * index + perturb + 1) % 2 ^ 32) (perturb / 2 ^ 5) j

-- A write that leaves a slot used keeps the ways.
pub Route-set :
    (t : List HashSlot) (mask i : ℕ) (new : HashSlot)
    → i < length t
    → is_used new.mode ≡ true
    → (n index perturb j : ℕ) → Route t mask n index perturb j
    → Route (set t i new) mask n index perturb j
Route-set t mask i new inside used zero index perturb j r = r
Route-set t mask i new inside used (suc n) index perturb j ((s, at, u), r) =
    let x = bit_and index mask in
    let read = get_elem?-set t i x new inside in
    let rest = Route-set t mask i new inside used n _ _ j r in
    elim (Bool-cases (x == i)) [
      | inl same ↦ ((new, read ∙ rw same refl, used), rest)
      | inr other ↦ ((s, read ∙ rw other at, u), rest)
    ]

-- A way does not lead past an empty slot.
pub Route-le :
    (map : HashMap) (m n index perturb j : ℕ)
    → Route map.table map.mask n index perturb j
    → Has map (bit_and (index_at m index perturb) map.mask) sl_empty
    → n ≤ m
unfolding index_at
Route-le map m zero index perturb j r e = omega arith
Route-le map zero (suc n) index perturb j ((s, at, used), r) (s', at', empty) =
    absurd (ground (arith, at, at', used, empty))
Route-le map (suc m) (suc n) index perturb j (u, r) e =
    let shorter = Route-le map m n _ _ j r e in omega arith

module _ (map : HashMap) (key hash : ℕ) where
  -- The only slot with the key is found, if the way to it is free.
  module _ (i : ℕ) (found : HashSlot) (at_i : get_elem? map.table i ≡ some found)
      (active : found.mode ≡ sl_active) (hit : matches map.cmp key hash found ≡ true)
      (only : (j : ℕ) (s : HashSlot)
        → get_elem? map.table j ≡ some s
        → s.mode ≡ sl_active
        → matches map.cmp key hash s ≡ true
        → j ≡ i) where
    pub probe-finds :
        (n fuel index perturb : ℕ) (freeslot : Option ℕ)
        → n < fuel
        → Route map.table map.mask n index perturb i
        → probe fuel map key hash index perturb (bit_and index map.mask) freeslot ≡ some i
    probe-finds zero zero index perturb freeslot lt r = absurd (omega arith)
    probe-finds (suc n) zero index perturb freeslot lt r = absurd (omega arith)
    probe-finds zero (suc fuel) index perturb freeslot lt r =
        let here = ap (get_elem? map.table) r ∙ at_i in
        step-hit map key hash fuel index perturb (bit_and index map.mask) freeslot found here active
          hit
        ∙ ap some r
    probe-finds (suc n) (suc fuel) index perturb freeslot lt ((s, at, used), r) =
        let x = bit_and index map.mask in
        elim (mode-cases s.mode) [
          | inl empty ↦ absurd (ground (arith, used, empty))
          | inr (inl act) ↦ elim (Bool-cases (matches map.cmp key hash s)) [
            | inl same ↦
                step-hit map key hash fuel index perturb x freeslot s at act same
                ∙ ap some (only x s at act same)
            | inr miss ↦
                step-miss map key hash fuel index perturb x freeslot s at act miss
                ∙ probe-finds n fuel _ _ freeslot (omega arith) r
          ]
          | inr (inr deleted) ↦
              step-deleted map key hash fuel index perturb x freeslot s at deleted
              ∙ probe-finds n fuel _ _ (some (or_else freeslot x)) (omega arith) r
        ]

  -- A key that is in no slot: the search ends, at a slot that is free.
  module _ (inside : (x : ℕ) → bit_and x map.mask < length map.table)
      (absent : (j : ℕ) (s : HashSlot)
        → get_elem? map.table j ≡ some s
        → s.mode ≡ sl_active
        → matches map.cmp key hash s ≡ false) where
    probe-keeps :
        (m fuel index perturb d : ℕ)
        → m < fuel
        → Has map (bit_and (index_at m index perturb) map.mask) sl_empty
        → probe fuel map key hash index perturb (bit_and index map.mask) (some d) ≡ some d
    unfolding index_at
    probe-keeps zero zero index perturb d lt e = absurd (omega arith)
    probe-keeps (suc m) zero index perturb d lt e = absurd (omega arith)
    probe-keeps zero (suc fuel) index perturb d lt (s, at, empty) =
        step-empty map key hash fuel index perturb (bit_and index map.mask) (some d) s at empty
    probe-keeps (suc m) (suc fuel) index perturb d lt e =
        let x = bit_and index map.mask in
        let (s, at) = get_elem?-some map.table x (inside index) in
        elim (mode-cases s.mode) [
          | inl empty ↦ step-empty map key hash fuel index perturb x (some d) s at empty
          | inr (inl act) ↦
              step-miss map key hash fuel index perturb x (some d) s at act (absent x s at act)
              ∙ probe-keeps m fuel _ _ d (omega arith) e
          | inr (inr deleted) ↦
              step-deleted map key hash fuel index perturb x (some d) s at deleted
              ∙ probe-keeps m fuel _ _ d (omega arith) e
        ]

    pub probe-idle :
        (m fuel index perturb : ℕ)
        → m < fuel
        → Has map (bit_and (index_at m index perturb) map.mask) sl_empty
        → (j : ℕ) × (n : ℕ) × (s : HashSlot) × (probe fuel map key hash index perturb
              (bit_and index map.mask)
              none
            ≡ some j)
          × Route map.table map.mask n index perturb j
          × (get_elem? map.table j ≡ some s)
          × (is_active s.mode ≡ false)
    unfolding index_at
    probe-idle zero zero index perturb lt e = absurd (omega arith)
    probe-idle (suc m) zero index perturb lt e = absurd (omega arith)
    probe-idle zero (suc fuel) index perturb lt (s, at, empty) =
        let x = bit_and index map.mask in
        (
          x,
          0,
          s,
          step-empty map key hash fuel index perturb x none s at empty,
          refl,
          at,
          rw empty refl,
        )
    probe-idle (suc m) (suc fuel) index perturb lt e =
        let x = bit_and index map.mask in
        let (s, at) = get_elem?-some map.table x (inside index) in
        elim (mode-cases s.mode) [
          | inl empty ↦ (
            x,
            0,
            s,
            step-empty map key hash fuel index perturb x none s at empty,
            refl,
            at,
            rw empty refl,
          )
          | inr (inl act) ↦
              let (j, n, t, run, r, at', idle) = probe-idle m fuel _ _ (omega arith) e in
              (
                j,
                suc n,
                t,
                step-miss map key hash fuel index perturb x none s at act (absent x s at act) ∙ run,
                ((s, at, rw act refl), r),
                at',
                idle,
              )
          | inr (inr deleted) ↦ (
            x,
            0,
            s,
            step-deleted map key hash fuel index perturb x none s at deleted
                ∙ probe-keeps m fuel _ _ x (omega arith) e,
            refl,
            at,
            rw deleted refl,
          )
        ]
