-- ===== src/HashTable/Roundtrip.antt =====
-- kernel/hash.c: what is read after a write, and histories of calls.
use advanced_operating_syste.Base.{
  ℕ, suc, ◌+◌, ◌*◌, ◌^◌, ◌≤◌, ◌≡◌, inl, inr, refl, ◌∙◌, sym, ap, true, Option, none, some, arith,
  if◌then◌else◌, or_else, Bool-cases,
}
use advanced_operating_syste.Base.Int.{ℤ, pos}
use advanced_operating_syste.HashTable.{HashMap, hash_set, hash_del, hash_get}
use advanced_operating_syste.HashTable.Reference.{value_of}
use advanced_operating_syste.HashTable.Valid.{IsKey, IsWord}
use advanced_operating_syste.HashTable.Lookup.{hash_get-equal}
use advanced_operating_syste.HashTable.Update.{IsValid, reshaped, pow_le}
use advanced_operating_syste.HashTable.Contents.{Leaves, hash_set-Leaves, hash_del-Leaves}

read-Leaves :
    (map : HashMap) (laws : IsKey map.hfunc map.cmp) (k fuel : ℕ) (contents : ℕ → Option ℕ)
    (o : Option (HashMap × ℤ))
    → 7 + 2 * 2 ^ k ≤ fuel
    → Leaves map k contents o
    → (m : HashMap) × (o ≡ some (m, pos 0))
      × ((q default_value : ℕ)
          → IsWord map.hfunc q
          → hash_get fuel (some m) q default_value ≡ some (or_else (contents q) default_value))
read-Leaves map laws k fuel contents o enough (k', fill, count, mask, t, run, valid, holds, close) =
    let m = reshaped map fill count mask t in
    let bound = pow_le k' (suc k) (omega (arith, close)) in
    let double : 2 ^ suc k ≡ 2 * 2 ^ k = omega arith in
    (
      m,
      run,
      λ q d word.
          (hash_get-equal m laws k' valid.placed fuel q d (omega (arith, enough, bound, double))
            word).0
          ∙ ap (λ o. some (or_else o d)) (holds q),
    )

module _ (map : HashMap) (laws : IsKey map.hfunc map.cmp) (k : ℕ) (v : IsValid k map)
    (most : k ≤ 29) (fuel : ℕ) (enough : 7 + 2 * 2 ^ k ≤ fuel) (key : ℕ)
    (word : IsWord map.hfunc key) where
  -- In a valid table below 2^30 slots, with memory and enough rounds, `hash_set` succeeds, and
  -- `hash_get` then gives the value for every key equal to the one set, and for each other key what
  -- it gave before, also if the table was resized.
  pub hash_set-get :
      (value : ℕ)
      → (m : HashMap) × (hash_set fuel true map key value ≡ some (m, pos 0))
        × ((q default_value : ℕ)
            → IsWord map.hfunc q
            → hash_get fuel (some m) q default_value
              ≡ (if map.cmp key q then some value else hash_get fuel (some map) q default_value))
  hash_set-get value =
      let (m, run, read) =
        read-Leaves map laws k fuel _ (hash_set fuel true map key value) enough
          (hash_set-Leaves map laws k v fuel enough most key word value) in
      (m, run, λ q d w. read q d w ∙ before q d w)
    where
      before :
          (q d : ℕ)
          → IsWord map.hfunc q
          → some (or_else (if map.cmp key q then some value else value_of map.cmp q map.table) d)
            ≡ (if map.cmp key q then some value else hash_get fuel (some map) q d)
      before q d w =
          let old = (hash_get-equal map laws k v.placed fuel q d (omega (arith, enough)) w).0 in
          elim (Bool-cases (map.cmp key q)) [ inl e ↦ rw e refl | inr e ↦ rw e (sym old) ]

  -- In a valid table below 2^30 slots, with memory and enough rounds, `hash_del` succeeds, and
  -- `hash_get` then gives the default for every key equal to the one deleted, and for each other
  -- key what it gave before, also if the table was resized.
  pub hash_del-get :
      (m : HashMap) × (hash_del fuel true map key ≡ some (m, pos 0))
      × ((q default_value : ℕ)
          → IsWord map.hfunc q
          → hash_get fuel (some m) q default_value ≡ (
              if map.cmp key q
              then some default_value
              else hash_get fuel (some map) q default_value))
  hash_del-get =
      let (m, run, read) =
        read-Leaves map laws k fuel _ (hash_del fuel true map key) enough
          (hash_del-Leaves map laws k v fuel enough most key word) in
      (m, run, λ q d w. read q d w ∙ before q d w)
    where
      before :
          (q d : ℕ)
          → IsWord map.hfunc q
          → some (or_else (if map.cmp key q then none else value_of map.cmp q map.table) d)
            ≡ (if map.cmp key q then some d else hash_get fuel (some map) q d)
      before q d w =
          let old = (hash_get-equal map laws k v.placed fuel q d (omega (arith, enough)) w).0 in
          elim (Bool-cases (map.cmp key q)) [ inl e ↦ rw e refl | inr e ↦ rw e (sym old) ]
