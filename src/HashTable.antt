-- ===== src/HashTable.antt =====
-- kernel/hash.c and hash.h: an open-addressing hash table. Keys and values are pointers, as
-- numbers, 0 for NULL; hash codes are 32-bit words. A pointer to a slot is its index.
pub mod Fresh
pub mod Period
pub mod Route
pub mod Reference
pub mod Search
pub mod Valid
pub mod Lookup
pub mod Write
pub mod Copy
pub mod Update
pub mod Updated
pub mod Contents
pub mod Probe
pub mod Roundtrip
pub mod Reach
pub mod Full
pub mod Strings
mod Tests
use Prim.Native.Nat.{bit_and, bit_xor}
use advanced_operating_syste.Base.{
  ℕ, zero, suc, ◌+◌, ◌-◌, ◌*◌, ◌/◌, ◌%◌, ◌^◌, Bool, true, false, ◌&&◌, ◌||◌, Option, none, some,
  List, [], ◌∷◌, ◌==◌, ltb, leb, if◌then◌else◌, ◌>>=◌, or_else, get_elem?, set, replicate,
}
use advanced_operating_syste.Base.Int.{ℤ, pos, negsuc, ◌==ℤ◌}

abbrev pub hash_minsize : ℕ
hash_minsize = 8

pub data SlotMode : Type 0 where
  sl_empty sl_active sl_deleted : SlotMode

pub record HashSlot : Type 0 where
  pub key : ℕ
  pub value : ℕ
  pub hash : ℕ
  pub mode : SlotMode

pub record HashMap : Type 0 where
  pub fill : ℕ
  pub count : ℕ
  pub mask : ℕ
  pub table : List HashSlot
  pub hfunc : ℕ → ℕ
  pub cmp : ℕ → ℕ → Bool

abbrev pub empty_slot : HashSlot
empty_slot = record { key = 0; value = 0; hash = 0; mode = sl_empty }

-- `memory` says whether `mem_alloc` finds the table; the answer is the map and the result.
unfoldable pub hash_initialize : Bool → ℕ → HashMap → HashMap × ℤ
hash_initialize memory size map =
    if memory
    then (
      record map { fill = 0; count = 0; mask = size - 1; table = replicate size empty_slot },
      pos 0,
    )
    else (map, negsuc 0)

-- An active slot has the key.
unfoldable pub matches : (ℕ → ℕ → Bool) → ℕ → ℕ → HashSlot → Bool
matches cmp key hash slot = (slot.key == key) || ((slot.hash == hash) && cmp slot.key key)

-- The loop of `hash_lookup`. `none`: out of fuel, or a slot outside the table.
unfoldable pub probe : ℕ → HashMap → ℕ → ℕ → ℕ → ℕ → ℕ → Option ℕ → Option ℕ
probe zero map key hash index perturb slot freeslot = none
probe (suc fuel) map key hash index perturb slot freeslot = do
  s ← get_elem? map.table slot
  let index' = (5 * index + perturb + 1) % 2 ^ 32
  let next = probe fuel map key hash index' (perturb / 2 ^ 5) (bit_and index' map.mask)
  elim s.mode [
    | sl_empty ↦ some (or_else freeslot slot)
    | sl_active ↦ if matches map.cmp key hash s then some slot else next freeslot
    | sl_deleted ↦ next (some (or_else freeslot slot))
  ]

unfoldable pub hash_lookup : ℕ → HashMap → ℕ → ℕ → Option ℕ
hash_lookup fuel map key hash =
    let index = bit_and hash map.mask in probe fuel map key hash index hash index none

-- The loop of `hash_copy`, over the slots of the old table.
unfoldable pub hash_copy : ℕ → List HashSlot → HashMap → Option HashMap
hash_copy fuel [] map = some map
hash_copy fuel (old ∷ rest) map = elim old.mode [
  | sl_empty ↦ hash_copy fuel rest map
  | sl_deleted ↦ hash_copy fuel rest map
  | sl_active ↦ do
    new ← hash_lookup fuel map old.key (map.hfunc old.key)
    hash_copy fuel rest
        (record map { fill = map.fill + 1; count = map.count + 1; table = set map.table new old })
]

-- The size that `hash_update` wants: `none` for an overflow of `long`.
unfoldable pub new_size : HashMap → Option ℕ
new_size map =
    let old_size = map.mask + 1 in
    if leb (2 * old_size) (3 * map.fill)
    then (if leb (2 ^ 31) (2 * old_size) then none else some (2 * old_size))
    else if ltb hash_minsize old_size && leb (4 * map.count) old_size
    then some (old_size / 2)
    else some old_size

unfoldable pub hash_update : ℕ → Bool → HashMap → Option (HashMap × ℤ)
hash_update fuel memory map = elim (new_size map) [
  | none ↦ some (map, negsuc 0)
  | some size ↦
      let resized = hash_copy fuel map.table (hash_initialize memory size map).0 in
      if size == map.mask + 1
      then some (map, pos 0)
      else if memory
      then (resized >>= λ map. some (map, pos 0))
      else some (map, negsuc 0)
]

-- `map` is what the structure had in it before.
unfoldable pub hash_init : Bool → (ℕ → ℕ) → (ℕ → ℕ → Bool) → HashMap → HashMap × ℤ
hash_init memory hfunc cmp map =
    if memory
    then (record (hash_initialize true hash_minsize map).0 { hfunc = hfunc; cmp = cmp }, pos 0)
    else (map, negsuc 0)

-- The table is freed; the pointers are NULL, here a function that is constant 0 and a test that
-- fails.
unfoldable pub hash_destroy : HashMap → HashMap
hash_destroy map = record {
  fill = 0;
  count = 0;
  mask = 0;
  table = [];
  hfunc = λ _. 0;
  cmp = λ _ _. false;
}

abbrev pub is_active : SlotMode → Bool
is_active sl_active = true
is_active _ = false

-- In the calls `none` is the pointer NULL to the map.
unfoldable pub hash_isset : ℕ → Option HashMap → ℕ → Option Bool
hash_isset fuel none key = some false
hash_isset fuel (some map) key = do
  slot ← hash_lookup fuel map key (map.hfunc key)
  s ← get_elem? map.table slot
  some (is_active s.mode)

unfoldable pub hash_get : ℕ → Option HashMap → ℕ → ℕ → Option ℕ
hash_get fuel none key default_value = some default_value
hash_get fuel (some map) key default_value = do
  slot ← hash_lookup fuel map key (map.hfunc key)
  s ← get_elem? map.table slot
  some (if is_active s.mode then s.value else default_value)

-- A write of a key into a slot that is not active.
unfoldable pub occupy : ℕ → HashSlot → HashSlot → HashMap → HashMap
occupy slot s new map = record map {
  count = map.count + 1;
  fill = elim s.mode [ sl_empty ↦ map.fill + 1 | sl_active ↦ map.fill | sl_deleted ↦ map.fill ];
  table = set map.table slot new;
}

-- `hash_set` and `hash_del` are given for a map that is there; for NULL they return -1.
unfoldable pub hash_set : ℕ → Bool → HashMap → ℕ → ℕ → Option (HashMap × ℤ)
hash_set fuel memory map key value = do
  let hash = map.hfunc key
  slot ← hash_lookup fuel map key hash
  s ← get_elem? map.table slot
  let new : HashSlot = record { key = key; value = value; hash = hash; mode = sl_active }
  let updated = hash_update fuel memory (occupy slot s new map)
  if is_active s.mode
      then some (record map { table = set map.table slot (record s { value = value }) }, pos 0)
      else updated

unfoldable pub hash_del : ℕ → Bool → HashMap → ℕ → Option (HashMap × ℤ)
hash_del fuel memory map key = do
  slot ← hash_lookup fuel map key (map.hfunc key)
  s ← get_elem? map.table slot
  let gone : HashSlot = record { key = 0; value = 0; hash = 0; mode = sl_deleted }
  let updated =
      hash_update fuel memory
        (record map { count = map.count - 1; table = set map.table slot gone })
  if is_active s.mode then updated else some (map, pos 0)

unfoldable pub hash_direct_cmp : ℕ → ℕ → Bool
hash_direct_cmp key1 key2 = key1 == key2

unfoldable pub hash_direct_hfunc : ℕ → ℕ
hash_direct_hfunc key = key

-- A `char` is signed, and widened to the 32 bits of a `long`.
abbrev pub char_word : ℕ → ℕ
char_word c = let b = c % 2 ^ 8 in if ltb b 128 then b else 2 ^ 32 - 2 ^ 8 + b

-- The loop of `hash_string_hfunc`, over the characters before the final zero.
unfoldable pub hash_string_from : List ℕ → ℕ → ℕ
hash_string_from [] hash = hash
hash_string_from (c ∷ rest) hash =
    hash_string_from rest (bit_xor ((hash * 2 ^ 5 % 2 ^ 32 + hash) % 2 ^ 32) (char_word c))

unfoldable pub hash_string_hfunc : List ℕ → ℕ
hash_string_hfunc key = hash_string_from key 5381

unfoldable pub hash_init_direct : Bool → HashMap → HashMap × ℤ
hash_init_direct memory map = hash_init memory hash_direct_hfunc hash_direct_cmp map

-- Strings are read at their addresses; `strcmp` is the C library's.
module _ (strcmp : List ℕ → List ℕ → ℤ) (text : ℕ → List ℕ) where
  unfoldable pub hash_string_cmp : ℕ → ℕ → Bool
  hash_string_cmp key1 key2 = strcmp (text key1) (text key2) ==ℤ pos 0

  unfoldable pub hash_init_string : Bool → HashMap → HashMap × ℤ
  hash_init_string memory map =
      hash_init memory (λ key. hash_string_hfunc (text key)) hash_string_cmp map
