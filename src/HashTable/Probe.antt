-- ===== src/HashTable/Probe.antt =====
-- kernel/hash.c: the search after a write into the slot that it found.
use Prim.Native.Nat.{bit_and}
use advanced_operating_syste.Base.{
  ℕ, suc, ◌+◌, ◌*◌, ◌/◌, ◌%◌, ◌^◌, ◌≡◌, ◌⊎◌, inl, inr, refl, ◌∙◌, true, false, Option, some,
  if◌then◌else◌, or_else, get_elem?,
}
use advanced_operating_syste.HashTable.{
  HashMap, HashSlot, SlotMode, sl_empty, sl_active, sl_deleted, matches, probe,
}

-- A slot of the table that has a mode.
abbrev pub Has : HashMap → ℕ → SlotMode → Type 0
Has map i mode = (s : HashSlot) × (get_elem? map.table i ≡ some s) × (s.mode ≡ mode)

-- One step of the search, by the slot and its mode.
module _ (map : HashMap) (key hash : ℕ) (fuel index perturb slot : ℕ) (freeslot : Option ℕ)
    (s : HashSlot) (at : get_elem? map.table slot ≡ some s) where
  abbrev next_index : ℕ
  next_index = (5 * index + perturb + 1) % 2 ^ 32

  abbrev onward : Option ℕ → Option ℕ
  onward = probe fuel map key hash next_index (perturb / 2 ^ 5) (bit_and next_index map.mask)

  step : probe (suc fuel) map key hash index perturb slot freeslot ≡ (elim s.mode [
    | sl_empty ↦ some (or_else freeslot slot)
    | sl_active ↦ if matches map.cmp key hash s then some slot else onward freeslot
    | sl_deleted ↦ onward (some (or_else freeslot slot))
  ])
  unfolding probe
  step = rw (at, probe) refl

  pub step-empty :
      s.mode ≡ sl_empty
      → probe (suc fuel) map key hash index perturb slot freeslot ≡ some (or_else freeslot slot)
  step-empty e = step ∙ rw e refl

  pub step-hit :
      s.mode ≡ sl_active
      → matches map.cmp key hash s ≡ true
      → probe (suc fuel) map key hash index perturb slot freeslot ≡ some slot
  step-hit e h = step ∙ rw (e, h) refl

  pub step-miss :
      s.mode ≡ sl_active
      → matches map.cmp key hash s ≡ false
      → probe (suc fuel) map key hash index perturb slot freeslot ≡ onward freeslot
  step-miss e h = step ∙ rw (e, h) refl

  pub step-deleted :
      s.mode ≡ sl_deleted
      → probe (suc fuel) map key hash index perturb slot freeslot
        ≡ onward (some (or_else freeslot slot))
  step-deleted e = step ∙ rw e refl

pub mode-cases : (m : SlotMode) → (m ≡ sl_empty) ⊎ ((m ≡ sl_active) ⊎ (m ≡ sl_deleted))
mode-cases sl_empty = inl refl
mode-cases sl_active = inr (inl refl)
mode-cases sl_deleted = inr (inr refl)
