-- ===== src/HashTable/Write.antt =====
-- kernel/hash.c: a table after a write of one slot.
use advanced_operating_syste.Base.{
  get_elem?-inside, ℕ, ◌+◌, ◌-◌, ◌^◌, ◌≤◌, ◌<◌, ◌≡◌, inl, inr, refl, ◌∙◌, sym, ap, subst, Bool,
  true, false, none, some, arith, ◌==◌, ==_iff, if◌then◌else◌, get_elem?, set, length, length-set,
  get_elem?-set, Bool-cases,
}
use advanced_operating_syste.HashTable.{HashMap, HashSlot, sl_deleted, is_active, occupy}
use advanced_operating_syste.HashTable.Probe.{mode-cases}
use advanced_operating_syste.HashTable.Reference.{
  is_used, holds, bit, tally, tally-set, tally-at, value_of, value_of-set, tally-le, used_of,
}
use advanced_operating_syste.HashTable.Search.{Route-set}
use advanced_operating_syste.HashTable.Valid.{IsKey, IsPlaced, Home}

abbrev pub used : HashSlot → Bool
used s = is_used s.mode

abbrev pub active : HashSlot → Bool
active s = is_active s.mode

module _ (map : HashMap) (k : ℕ) (v : IsPlaced k map) (i : ℕ) (old new : HashSlot)
    (at : get_elem? map.table i ≡ some old) (stays : is_used new.mode ≡ true) where
  inside : i < length map.table
  inside = get_elem?-inside map.table i old at

  abbrev pub written : ℕ → ℕ → HashMap
  written fill count = record map { fill = fill; count = count; table = set map.table i new }

  written-placed :
      (fill count : ℕ)
      → (is_active new.mode ≡ true → Home map new i)
      → (j : ℕ) (s : HashSlot) → get_elem? (set map.table i new) j ≡ some s
      → is_active s.mode ≡ true
      → Home (written fill count) s j
  written-placed fill count own j s at' act =
      let read = get_elem?-set map.table i j new inside in
      elim (Bool-cases (j == i)) [
        | inl same ↦
            let here : some new ≡ some s = sym (read ∙ rw same refl) ∙ at' in
            let e : new ≡ s = ground (arith, here) in
            let place : i ≡ j = sym ((==_iff j i).0 same) in
            kept j s (
              subst (λ j. Home map s j) place
                (subst (λ s. Home map s i) e (own (ap (λ s. is_active s.mode) e ∙ act))))
        | inr other ↦ kept j s (v.placed j s (sym (read ∙ rw other refl) ∙ at') act)
      ]
    where
      kept : (j : ℕ) (s : HashSlot) → Home map s j → Home (written fill count) s j
      kept j s (own, word, (n, way)) =
          (own, word, (n, Route-set map.table map.mask i new inside stays n _ _ j way))

  pub written-IsPlaced :
      (fill count : ℕ)
      → fill + bit (used old) ≡ map.fill + 1
      → count + bit (active old) ≡ map.count + bit (active new)
      → fill < 2 ^ k
      → ((key : ℕ) → tally (holds map.cmp key) (set map.table i new) ≤ 1)
      → (is_active new.mode ≡ true → Home map new i)
      → IsPlaced k (written fill count)
  written-IsPlaced fill count f c room apart own = record {
    width = v.width;
    masked = v.masked;
    sized = length-set map.table i new ∙ v.sized;
    filled = omega (arith, f, v.filled, tally-set used map.table i old new at, ap bit stays);
    counted = omega (arith, c, v.counted, tally-set active map.table i old new at);
    spare = room;
    apart = apart;
    placed = written-placed fill count own;
  }

module _ (map : HashMap) (laws : IsKey map.hfunc map.cmp) where
  -- Slots with equal keys hold the same keys.
  pub holds_same :
      (a b : ℕ)
      → map.cmp a b ≡ true
      → (s : HashSlot) → holds map.cmp b s ≡ true
      → holds map.cmp a s ≡ true
  holds_same a b e s h = ground (arith, h, laws.join s.key b a, laws.swap a b)

  pub tally_same :
      (a b : ℕ)
      → map.cmp a b ≡ true
      → tally (holds map.cmp b) map.table ≤ tally (holds map.cmp a) map.table
  tally_same a b e = tally-le (holds map.cmp b) (holds map.cmp a) (holds_same a b e) map.table

  module _ (k : ℕ) (v : IsPlaced k map) (i : ℕ) (old new : HashSlot)
      (at : get_elem? map.table i ≡ some old) where
    -- A key that was in no slot comes into a free one.
    module _ (idle : is_active old.mode ≡ false) (act : is_active new.mode ≡ true)
        (out : tally (holds map.cmp new.key) map.table ≡ 0) where
      occupied-apart : (q : ℕ) → tally (holds map.cmp q) (set map.table i new) ≤ 1
      occupied-apart q =
          let read = tally-set (holds map.cmp q) map.table i old new at in
          elim (Bool-cases (map.cmp new.key q)) [
            | inl e ↦ ground (arith, read, tally_same new.key q e, out)
            | inr e ↦ ground (arith, read, v.apart q, act, e)
          ]

      pub occupied-value :
          (q : ℕ)
          → value_of map.cmp q (set map.table i new)
            ≡ (if map.cmp new.key q then some new.value else value_of map.cmp q map.table)
      occupied-value q =
          value_of-set map.cmp q map.table i old new at (v.apart q) (occupied-apart q)
          ∙ rw (idle, act) refl

      pub occupy-IsPlaced :
          map.fill + 1 < 2 ^ k → Home map new i → IsPlaced k (occupy i old new map)
      unfolding occupy
      occupy-IsPlaced room home =
          written-IsPlaced map k v i old new at (used_of new.mode act) (occupy i old new map).fill
            (map.count + 1) fill (omega (arith, ap bit idle, ap bit act)) below occupied-apart
            (λ _. home)
        where
          fill : (occupy i old new map).fill + bit (used old) ≡ map.fill + 1
          fill = elim (mode-cases old.mode) [
            | inl e ↦ rw e (omega arith)
            | inr (inl e) ↦ rw e (omega arith)
            | inr (inr e) ↦ rw e (omega arith)
          ]

          below : (occupy i old new map).fill < 2 ^ k
          below = omega (arith, fill, room)

    -- A slot that keeps its key gets another value.
    module _ (value : ℕ) (act : is_active old.mode ≡ true) where
      abbrev kept : HashSlot
      kept = record old { value = value }

      revalued-apart : (q : ℕ) → tally (holds map.cmp q) (set map.table i kept) ≤ 1
      revalued-apart q =
          omega (arith, v.apart q, tally-set (holds map.cmp q) map.table i old kept at)

      pub revalued-value :
          (q : ℕ)
          → value_of map.cmp q (set map.table i kept)
            ≡ (if map.cmp old.key q then some value else value_of map.cmp q map.table)
      revalued-value q =
          value_of-set map.cmp q map.table i old kept at (v.apart q) (revalued-apart q)
          ∙ ground arith

      pub revalued-IsPlaced : IsPlaced k (record map { table = set map.table i kept })
      revalued-IsPlaced =
          written-IsPlaced map k v i old kept at (used_of old.mode act) map.fill map.count
            (ap (λ b. map.fill + bit b) (used_of old.mode act)) refl v.spare revalued-apart
            (λ _. v.placed i old at act)

    -- A slot that is deleted.
    module _ (act : is_active old.mode ≡ true) (gone : new.mode ≡ sl_deleted) where
      deleted-apart : (q : ℕ) → tally (holds map.cmp q) (set map.table i new) ≤ 1
      deleted-apart q =
          let read = tally-set (holds map.cmp q) map.table i old new at in
          ground (arith, read, v.apart q, gone)

      pub deleted-value :
          (q : ℕ)
          → value_of map.cmp q (set map.table i new)
            ≡ (if map.cmp old.key q then none else value_of map.cmp q map.table)
      deleted-value q =
          value_of-set map.cmp q map.table i old new at (v.apart q) (deleted-apart q)
          ∙ rw (gone, act) refl

      pub deleted-IsPlaced :
          IsPlaced k (record map { count = map.count - 1; table = set map.table i new })
      deleted-IsPlaced =
          written-IsPlaced map k v i old new at (rw gone refl) map.fill (map.count - 1)
            (ap (λ b. map.fill + bit b) (used_of old.mode act)) (count) v.spare deleted-apart
            (λ a. ground (arith, a, gone))
        where
          count : map.count - 1 + bit (active old) ≡ map.count + bit (active new)
          count = ground (arith, v.counted, tally-at active map.table i old at, act, gone)
