-- ===== src/HashTable/Updated.antt =====
-- kernel/hash.c: `hash_update` as a whole.
use advanced_operating_syste.Base.{
  ℕ, suc, ◌+◌, ◌-◌, ◌*◌, ◌^◌, ◌≤◌, ◌<◌, ◌≡◌, inl, inr, refl, ◌∙◌, ap, true, false, ◌&&◌, some, List,
  arith, ◌>>=◌, ◌==◌, ==-ne, ==_iff, ltb, leb, Bool-cases,
}
use advanced_operating_syste.Base.Int.{pos}
use advanced_operating_syste.HashTable.{HashMap, HashSlot, hash_minsize, hash_update, new_size}
use advanced_operating_syste.Base.Bits.{pow_pos}
use advanced_operating_syste.HashTable.Valid.{IsKey, IsPlaced}
use advanced_operating_syste.HashTable.Update.{
  Holds, pow_le, reshaped, resized, size-grows, size-shrinks, size-stays, update-copies,
  update-stays,
}

-- What `hash_update` does: it succeeds, and leaves a valid table with the same contents.
abbrev pub Updates : ℕ → HashMap → ℕ → Type 0
Updates fuel map k =
    (k' : ℕ) × (fill : ℕ) × (count : ℕ) × (mask : ℕ) × (t : List HashSlot) × (hash_update fuel true
        map
      ≡ some (reshaped map fill count mask t, pos 0))
    × Holds map k' (reshaped map fill count mask t)
    × (k' ≤ k + 1)

module _ (fuel : ℕ) (map : HashMap) (laws : IsKey map.hfunc map.cmp) (k : ℕ)
    (v : IsPlaced k map) where
  updated :
      (k' : ℕ)
      → k' ≤ 30
      → k' ≤ k + 1
      → 7 + 2 ^ k' ≤ fuel
      → 3 ≤ k'
      → 3 * map.count < 2 * 2 ^ k'
      → new_size map ≡ some (2 ^ k')
      → (2 ^ k' == map.mask + 1) ≡ false
      → Updates fuel map k
  updated k' width close enough least light e other =
      let (fill, count, t, run, held) =
        resized fuel map laws k v k' width enough (omega (arith, light)) least light in
      (
        k',
        fill,
        count,
        2 ^ k' - 1,
        t,
        update-copies map fuel k' e other ∙ ap (λ o. o >>= λ map. some (map, pos 0)) run,
        held,
        close,
      )

  pub hash_update-Updates :
      3 ≤ k → k ≤ 29 → map.count ≤ map.fill → 7 + 2 * 2 ^ k ≤ fuel → Updates fuel map k
  hash_update-Updates least most fewer enough =
      let p = 2 ^ k in
      let whole : map.mask + 1 ≡ p = omega (arith, v.masked, pow_pos k) in
      let double : 2 ^ suc k ≡ 2 * p = omega arith in
      let bound = pow_le k 29 most in
      elim (Bool-cases (leb (2 * (map.mask + 1)) (3 * map.fill))) [
        | inl full ↦
            updated (suc k) (omega arith) (omega arith) (omega (arith, double, enough))
              (omega (arith, least)) (omega (arith, double, v.spare, fewer, pow_pos k))
              (size-grows map full (ground (arith, whole, bound))
                ∙ ap some (omega (arith, whole, double)))
              (==-ne (2 ^ suc k) (map.mask + 1) (λ e. omega (arith, e, whole, double, pow_pos k)))
        | inr light ↦
            elim (Bool-cases
              (ltb hash_minsize (map.mask + 1) && leb (4 * map.count) (map.mask + 1))) [
                | inl few ↦ shrinks whole light few
                | inr many ↦ (
                  k,
                  map.fill,
                  map.count,
                  map.mask,
                  map.table,
                  update-stays map fuel true (size-stays map light many),
                  (
                    record { at_least = least; loaded = ground (arith, light, whole); placed = v },
                    λ key. refl,
                  ),
                  omega arith,
                )
              ]
      ]
    where
      shrinks :
          map.mask + 1 ≡ 2 ^ k
          → leb (2 * (map.mask + 1)) (3 * map.fill) ≡ false
          → (ltb hash_minsize (map.mask + 1) && leb (4 * map.count) (map.mask + 1)) ≡ true
          → Updates fuel map k
      shrinks whole light few =
          let large : 8 < map.mask + 1 = ground (arith, few) in
          let sparse : 4 * map.count ≤ map.mask + 1 = ground (arith, few) in
          let deep : 4 ≤ k = elim (Bool-cases (k == 3)) [
            | inl e ↦ absurd (omega (arith, large, whole, ap (λ k. 2 ^ k) ((==_iff k 3).0 e)))
            | inr e ↦ ground (arith, e, least)
          ] in
          let next : k ≡ suc (k - 1) = omega (arith, deep) in
          let half : 2 ^ suc (k - 1) ≡ 2 * 2 ^ (k - 1) = omega arith in
          let double : 2 ^ k ≡ 2 * 2 ^ (k - 1) = ap (λ k. 2 ^ k) next ∙ half in
          updated (k - 1) (omega (arith, most)) (omega arith) (omega (arith, enough, double))
            (omega (arith, deep)) (omega (arith, sparse, whole, double, pow_pos (k - 1)))
            (size-shrinks map light few ∙ ap some (omega (arith, whole, double)))
            (==-ne (2 ^ (k - 1)) (map.mask + 1)
              (λ e. omega (arith, e, whole, double, pow_pos (k - 1))))
