-- ===== src/HashTable/Contents.antt =====
-- kernel/hash.c: what `hash_set` and `hash_del` do to what the table stands for.
use advanced_operating_syste.Base.{
  ℕ, ◌+◌, ◌-◌, ◌*◌, ◌^◌, ◌≤◌, ◌≡◌, inl, inr, refl, ◌∙◌, Bool, true, false, Option, none, some, List,
  arith, if◌then◌else◌, get_elem?, set, Bool-cases, Option-cases,
}
use advanced_operating_syste.Base.Int.{ℤ, pos}
use advanced_operating_syste.HashTable.{
  HashMap, HashSlot, sl_active, sl_deleted, is_active, occupy, hash_lookup, hash_update, hash_set,
  hash_del,
}
use advanced_operating_syste.HashTable.Reference.{
  holds, used_of, tally-le, value_of, none-tally, value_of-slot, value_of-none,
}
use advanced_operating_syste.HashTable.Valid.{
  IsKey, IsPlaced, IsWord, lookup-finds, lookup-idle, home_of,
}
use advanced_operating_syste.HashTable.Write.{
  used, active, tally_same, occupied-value, occupy-IsPlaced, revalued-value, revalued-IsPlaced,
  deleted-value, deleted-IsPlaced,
}
use advanced_operating_syste.HashTable.Update.{IsValid, reshaped, pow_le}
use advanced_operating_syste.HashTable.Updated.{hash_update-Updates}

count-le : {k : ℕ} {map : HashMap} → IsPlaced k map → map.count ≤ map.fill
count-le {map = map} v =
    omega (arith, v.filled, v.counted, tally-le active used (λ s. used_of s.mode) map.table)

-- A call that succeeds and leaves a valid table of the given contents, at most twice as large.
abbrev pub Leaves : HashMap → ℕ → (ℕ → Option ℕ) → Option (HashMap × ℤ) → Type 0
Leaves map k contents o =
    (k' : ℕ) × (fill : ℕ) × (count : ℕ) × (mask : ℕ) × (t : List HashSlot) × (o
      ≡ some (reshaped map fill count mask t, pos 0))
    × IsValid k' (reshaped map fill count mask t)
    × ((key : ℕ) → value_of map.cmp key t ≡ contents key)
    × (k' ≤ k + 1)

abbrev pub new_slot : HashMap → ℕ → ℕ → HashSlot
new_slot map key value = record { key = key; value = value; hash = map.hfunc key; mode = sl_active }

-- The calls once the search has ended.
pub set_runs :
    (fuel : ℕ) (memory : Bool) (map : HashMap) (key value j : ℕ) (s : HashSlot)
    → hash_lookup fuel map key (map.hfunc key) ≡ some j
    → get_elem? map.table j ≡ some s
    → is_active s.mode ≡ false
    → hash_set fuel memory map key value
      ≡ hash_update fuel memory (occupy j s (new_slot map key value) map)
unfolding hash_set
set_runs fuel memory map key value j s run at idle = rw (run, at, idle) refl

abbrev deleted_slot : HashSlot
deleted_slot = record { key = 0; value = 0; hash = 0; mode = sl_deleted }

del_runs :
    (fuel : ℕ) (map : HashMap) (key j : ℕ) (s : HashSlot)
    → hash_lookup fuel map key (map.hfunc key) ≡ some j
    → get_elem? map.table j ≡ some s
    → is_active s.mode ≡ true
    → hash_del fuel true map key
      ≡ hash_update fuel true
          (record map { count = map.count - 1; table = set map.table j deleted_slot })
unfolding hash_del
del_runs fuel map key j s run at act = rw (run, at, act) refl

module _ (map : HashMap) (laws : IsKey map.hfunc map.cmp) where
  -- Equal keys are equal to the same keys.
  cmp_same : (a b q : ℕ) → map.cmp a b ≡ true → map.cmp a q ≡ map.cmp b q
  cmp_same a b q e = ground (arith, e, laws.swap a b, laws.join a b q, laws.join b a q)

  module _ (k : ℕ) (v : IsValid k map) (fuel : ℕ) (enough : 7 + 2 * 2 ^ k ≤ fuel) (most : k ≤ 29)
      (key : ℕ) (word : IsWord map.hfunc key) where
    module _ (value : ℕ) where
      abbrev set_contents : ℕ → Option ℕ
      set_contents q = if map.cmp key q then some value else value_of map.cmp q map.table

      set_there :
          (i : ℕ) (s : HashSlot)
          → get_elem? map.table i ≡ some s
          → holds map.cmp key s ≡ true
          → Leaves map k set_contents (hash_set fuel true map key value)
      unfolding hash_set
      set_there i s at held =
          let run =
            lookup-finds map laws k v.placed key fuel i s (omega (arith, enough)) word at held in
          let act : is_active s.mode ≡ true = ground arith in
          let equal : map.cmp s.key key ≡ true = ground arith in
          let t = set map.table i (record s { value = value }) in
          (
            k,
            map.fill,
            map.count,
            map.mask,
            t,
            rw (run, at, act) refl,
            record {
              at_least = v.at_least;
              loaded = v.loaded;
              placed = revalued-IsPlaced map laws k v.placed i s s at value act;
            },
            λ q.
                revalued-value map laws k v.placed i s s at value act q
                ∙ rw (cmp_same s.key key q equal) refl,
            omega arith,
          )

      set_new :
          value_of map.cmp key map.table ≡ none
          → Leaves map k set_contents (hash_set fuel true map key value)
      unfolding hash_set occupy
      set_new out =
          let unheld = none-tally map.cmp key map.table out in
          let (j, s, run, at, idle, way) =
            lookup-idle map laws k v.placed key fuel (omega (arith, enough)) word unheld in
          let new = new_slot map key value in
          let large = pow_le 3 k v.at_least in
          let next = occupy j s new map in
          let placed =
            occupy-IsPlaced map laws k v.placed j s new at idle refl unheld
              (omega (arith, v.loaded, large)) (home_of map new j refl word way) in
          let (k', fill, count, mask, t, ran, (valid, same), close) =
            hash_update-Updates fuel next laws k placed v.at_least most (count-le placed) enough in
          (
            k',
            fill,
            count,
            mask,
            t,
            set_runs fuel true map key value j s run at idle ∙ ran,
            valid,
            λ q. same q ∙ occupied-value map laws k v.placed j s new at idle refl unheld q,
            close,
          )

      -- In a valid table below 2^30 slots and with memory, `hash_set` ends and succeeds: the table
      -- is valid again, the key has the value, and every other key has the value that it had, also
      -- where the table has been copied into a larger or smaller one.
      pub hash_set-Leaves : Leaves map k set_contents (hash_set fuel true map key value)
      hash_set-Leaves = elim (Option-cases (value_of map.cmp key map.table)) [
        | inl out ↦ set_new out
        | inr (x, there) ↦
            let (i, s, at, held, same) = value_of-slot map.cmp key map.table x there in
            set_there i s at held
      ]

    abbrev del_contents : ℕ → Option ℕ
    del_contents q = if map.cmp key q then none else value_of map.cmp q map.table

    del_there :
        (i : ℕ) (s : HashSlot)
        → get_elem? map.table i ≡ some s
        → holds map.cmp key s ≡ true
        → Leaves map k del_contents (hash_del fuel true map key)
    del_there i s at held =
        let run =
          lookup-finds map laws k v.placed key fuel i s (omega (arith, enough)) word at held in
        let act : is_active s.mode ≡ true = ground arith in
        let equal : map.cmp s.key key ≡ true = ground arith in
        let placed = deleted-IsPlaced map laws k v.placed i s deleted_slot at act refl in
        let next = record map { count = map.count - 1; table = set map.table i deleted_slot } in
        let (k', fill, count, mask, t, ran, (valid, same), close) =
          hash_update-Updates fuel next laws k placed v.at_least most (count-le placed) enough in
        (
          k',
          fill,
          count,
          mask,
          t,
          del_runs fuel map key i s run at act ∙ ran,
          valid,
          λ q.
              same q
              ∙ deleted-value map laws k v.placed i s deleted_slot at act refl q
              ∙ rw (cmp_same s.key key q equal) refl,
          close,
        )

    del_absent :
        value_of map.cmp key map.table ≡ none
        → Leaves map k del_contents (hash_del fuel true map key)
    unfolding hash_del
    del_absent out =
        let unheld = none-tally map.cmp key map.table out in
        let (j, s, run, at, idle, way) =
          lookup-idle map laws k v.placed key fuel (omega (arith, enough)) word unheld in
        (
          k,
          map.fill,
          map.count,
          map.mask,
          map.table,
          rw (run, at, idle) refl,
          v,
          λ q. elim (Bool-cases (map.cmp key q)) [
            | inl e ↦
                let unheld_too = tally_same map laws key q e in
                rw (value_of-none map.cmp q map.table (omega (arith, unheld_too, unheld)), e) refl
            | inr e ↦ rw e refl
          ],
          omega arith,
        )

    -- So does `hash_del`: it takes the key out, if it is there, and leaves every other key its
    -- value.
    pub hash_del-Leaves : Leaves map k del_contents (hash_del fuel true map key)
    hash_del-Leaves = elim (Option-cases (value_of map.cmp key map.table)) [
      | inl out ↦ del_absent out
      | inr (x, there) ↦
          let (i, s, at, held, same) = value_of-slot map.cmp key map.table x there in
          del_there i s at held
    ]
