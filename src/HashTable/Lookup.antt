-- ===== src/HashTable/Lookup.antt =====
-- kernel/hash.c: `hash_get` and `hash_isset` against a look through the whole table.
use advanced_operating_syste.Base.{
  ℕ, ◌+◌, ◌^◌, ◌≤◌, ◌≡◌, inl, inr, refl, Bool, true, false, Option, none, some, arith, or_else,
  Option-cases,
}
use advanced_operating_syste.HashTable.{HashMap, hash_get, hash_isset, is_active}
use advanced_operating_syste.HashTable.Reference.{value_of, none-tally, value_of-slot}
use advanced_operating_syste.HashTable.Valid.{IsKey, IsPlaced, IsWord, lookup-finds, lookup-idle}

abbrev pub is_some {ℓ} : {A : Type ℓ} → Option A → Bool
is_some none = false
is_some (some _) = true

-- In a table between two calls, for a key with a hash code of 32 bits, with more rounds than the
-- table has slots (7 more are enough), the search always ends: `hash_get` gives what a look through
-- all the slots, one after another, gives, or the default if the key is in none; `hash_isset` says
-- whether it is in one.
pub hash_get-equal :
    (map : HashMap)
    → IsKey map.hfunc map.cmp
    → (k : ℕ) → IsPlaced k map
    → (fuel key default_value : ℕ) → 7 + 2 ^ k ≤ fuel
    → IsWord map.hfunc key
    → (hash_get fuel (some map) key default_value
        ≡ some (or_else (value_of map.cmp key map.table) default_value))
      × (hash_isset fuel (some map) key ≡ some (is_some (value_of map.cmp key map.table)))
unfolding hash_get hash_isset
hash_get-equal map laws k v fuel key default_value enough word =
    elim (Option-cases (value_of map.cmp key map.table)) [
      | inl out ↦
          let (j, s, run, at, idle, way) =
            lookup-idle map laws k v key fuel enough word (none-tally map.cmp key map.table out) in
          (rw (run, at, idle, out) refl, rw (run, at, idle, out) refl)
      | inr (x, there) ↦
          let (i, s, at, held, same) = value_of-slot map.cmp key map.table x there in
          let run = lookup-finds map laws k v key fuel i s enough word at held in
          let active : is_active s.mode ≡ true = ground arith in
          (rw (run, at, active, there, same) refl, rw (run, at, active, there) refl)
    ]
