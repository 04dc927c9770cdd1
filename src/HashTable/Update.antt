-- ===== src/HashTable/Update.antt =====
-- kernel/hash.c: `hash_initialize` and `hash_update` keep what the table stands for.
use advanced_operating_syste.Base.{
  ℕ, ◌+◌, ◌-◌, ◌*◌, ◌/◌, ◌^◌, ◌≤◌, ◌<◌, ◌≡◌, refl, ◌∙◌, sym, ap, Bool, true, false, ◌&&◌, Option,
  none, some, List, arith, ◌>>=◌, ◌==◌, ==-refl, ltb, leb, replicate, length-replicate,
}
use advanced_operating_syste.Base.Int.{pos}
use advanced_operating_syste.HashTable.{
  HashMap, HashSlot, empty_slot, hash_minsize, hash_initialize, hash_copy, hash_update, new_size,
}
use advanced_operating_syste.Base.Bits.{pow_pos, pow-add}
use advanced_operating_syste.HashTable.Reference.{
  holds, bit, tally, tally-at, tally-replicate, value_of, value_of-none,
}
use advanced_operating_syste.HashTable.Valid.{IsKey, IsPlaced}
use advanced_operating_syste.HashTable.Write.{used, active}
use advanced_operating_syste.HashTable.Copy.{or_some, Copies, hash_copy-Copies}

abbrev pub reshaped : HashMap → ℕ → ℕ → ℕ → List HashSlot → HashMap
reshaped map fill count mask table = record map {
  fill = fill;
  count = count;
  mask = mask;
  table = table;
}

abbrev cleared : HashMap → ℕ → HashMap
cleared map k = reshaped map 0 0 (2 ^ k - 1) (replicate (2 ^ k) empty_slot)

module _ (map : HashMap) (k : ℕ) (width : k ≤ 30) where
  cleared-unheld : (key : ℕ) → tally (holds map.cmp key) (cleared map k).table ≡ 0
  cleared-unheld key = tally-replicate (holds map.cmp key) (2 ^ k) empty_slot refl

  pub cleared-value : (key : ℕ) → value_of map.cmp key (cleared map k).table ≡ none
  cleared-value key = value_of-none map.cmp key (cleared map k).table (cleared-unheld key)

  pub cleared-IsPlaced : IsPlaced k (cleared map k)
  cleared-IsPlaced =
      let idle = tally-replicate active (2 ^ k) empty_slot refl in
      record {
        width = width;
        masked = refl;
        sized = length-replicate (2 ^ k) empty_slot;
        filled = sym (tally-replicate used (2 ^ k) empty_slot refl);
        counted = sym idle;
        spare = pow_pos k;
        apart = λ key. omega (arith, cleared-unheld key);
        placed = λ i s at act.
            absurd (omega (arith, ap bit act, tally-at active (cleared map k).table i s at, idle));
      }

-- Between two calls less than two thirds of the slots are used.
pub record IsValid (k : ℕ) (map : HashMap) : Type 0 where
  pub at_least : 3 ≤ k
  pub loaded : 3 * map.fill < 2 * 2 ^ k
  pub placed : IsPlaced k map

-- A table with as many slots as `k'` says and with the same contents.
abbrev pub Holds : HashMap → ℕ → HashMap → Type 0
Holds map k' m =
    IsValid k' m × ((key : ℕ) → value_of map.cmp key m.table ≡ value_of map.cmp key map.table)

or_some-none {ℓ} : {A : Type ℓ} (o : Option A) → or_some o none ≡ o
or_some-none none = refl
or_some-none (some a) = refl

module _ (fuel : ℕ) (map : HashMap) (laws : IsKey map.hfunc map.cmp) (k : ℕ)
    (v : IsPlaced k map) where
  -- A copy into a table that is large enough.
  module _ (k' : ℕ) (width : k' ≤ 30) (enough : 7 + 2 ^ k' ≤ fuel) (room : map.count < 2 ^ k') where
    copy_all : Copies fuel k' map.table (cleared map k')
    copy_all =
        hash_copy-Copies fuel k' enough map.table (cleared map k') laws
          (cleared-IsPlaced map k' width) refl
          (λ i s at act. let home = v.placed i s at act in (home.0, home.1))
          (omega (arith, room, v.counted))
          (λ key. omega (arith, v.apart key, cleared-unheld map k' width key))

    pub resized :
        3 ≤ k'
        → 3 * map.count < 2 * 2 ^ k'
        → (fill : ℕ) × (count : ℕ) × (t : List HashSlot) × (hash_copy fuel map.table
              (cleared map k')
            ≡ some (reshaped map fill count (2 ^ k' - 1) t))
          × Holds map k' (reshaped map fill count (2 ^ k' - 1) t)
    resized least light =
        let (fill, count, t, run, sum, placed, value) = copy_all in
        (
          fill,
          count,
          t,
          run,
          (
            record {
              at_least = least;
              loaded = omega (arith, sum, light, v.counted);
              placed = placed;
            },
            λ key.
                value key
                ∙ ap (or_some (value_of map.cmp key map.table)) (cleared-value map k' width key)
                ∙ or_some-none (value_of map.cmp key map.table),
          ),
        )

pub pow_le : (k n : ℕ) → k ≤ n → 2 ^ k ≤ 2 ^ n
pow_le k n h =
    let sum : k + (n - k) ≡ n = omega arith in
    let whole : 2 ^ n ≡ 2 ^ (n - k) * 2 ^ k = ap (λ n. 2 ^ n) (sym sum) ∙ pow-add k (n - k) in
    grind (arith, whole, pow_pos (n - k))

-- The three answers of the test on the size.
module _ (map : HashMap) where
  abbrev size : ℕ
  size = map.mask + 1

  pub size-grows :
      leb (2 * size) (3 * map.fill) ≡ true
      → leb (2 ^ 31) (2 * size) ≡ false
      → new_size map ≡ some (2 * size)
  unfolding new_size
  size-grows full fits = rw (full, fits) refl

  pub size-shrinks :
      leb (2 * size) (3 * map.fill) ≡ false
      → (ltb hash_minsize size && leb (4 * map.count) size) ≡ true
      → new_size map ≡ some (size / 2)
  unfolding new_size
  size-shrinks light few = rw (light, few) refl

  pub size-stays :
      leb (2 * size) (3 * map.fill) ≡ false
      → (ltb hash_minsize size && leb (4 * map.count) size) ≡ false
      → new_size map ≡ some size
  unfolding new_size
  size-stays light many = rw (light, many) refl

  pub update-stays :
      (fuel : ℕ) (memory : Bool)
      → new_size map ≡ some size
      → hash_update fuel memory map ≡ some (map, pos 0)
  unfolding hash_update
  update-stays fuel memory e = rw (e, hash_update, ==-refl size) refl

  pub update-copies :
      (fuel k : ℕ)
      → new_size map ≡ some (2 ^ k)
      → (2 ^ k == size) ≡ false
      → hash_update fuel true map
        ≡ (hash_copy fuel map.table (cleared map k) >>= λ map. some (map, pos 0))
  unfolding hash_update hash_initialize
  update-copies fuel k e other = rw (e, hash_update, other) refl
