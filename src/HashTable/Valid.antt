-- ===== src/HashTable/Valid.antt =====
-- kernel/hash.c: what holds of a table between two calls, and what a search finds in it.
use Prim.Native.Nat.{bit_and}
use advanced_operating_syste.Base.{
  get_elem?-inside, ℕ, ◌+◌, ◌-◌, ◌^◌, ◌≤◌, ◌<◌, ◌≡◌, refl, ◌∙◌, sym, ap, subst, Bool, true, false,
  none, some, arith, ==_iff, get_elem?, length,
}
use advanced_operating_syste.HashTable.{
  HashMap, HashSlot, SlotMode, sl_empty, sl_active, sl_deleted, matches, probe, hash_lookup,
  is_active,
}
use advanced_operating_syste.HashTable.Probe.{Has}
use advanced_operating_syste.HashTable.Route.{index_at, visits, masked_index}
use advanced_operating_syste.HashTable.Reference.{
  is_used, holds, tally, tally-at, tally-lt, tally-one,
}
use advanced_operating_syste.HashTable.Search.{Route, Route-le, probe-finds, probe-idle}

-- What the table asks of the functions that it is given: `cmp` is an equivalence, and equal keys
-- have the same hash code.
pub record IsKey (hfunc : ℕ → ℕ) (cmp : ℕ → ℕ → Bool) : Type 0 where
  pub same : (a : ℕ) → cmp a a ≡ true
  pub swap : (a b : ℕ) → cmp a b ≡ true → cmp b a ≡ true
  pub join : (a b c : ℕ) → cmp a b ≡ true → cmp b c ≡ true → cmp a c ≡ true
  pub hashed : (a b : ℕ) → cmp a b ≡ true → hfunc a ≡ hfunc b

-- The hash code of a key is a number of 32 bits, as its type says.
abbrev pub IsWord : (ℕ → ℕ) → ℕ → Type 0
IsWord hfunc key = hfunc key < 2 ^ 32

-- An active slot is where a search for its key gets to.
abbrev pub Home : HashMap → HashSlot → ℕ → Type 0
Home map s i =
    (s.hash ≡ map.hfunc s.key)
    × IsWord map.hfunc s.key
    × ((n : ℕ) × Route map.table map.mask n (bit_and s.hash map.mask) s.hash i)

pub home_of :
    (map : HashMap) (s : HashSlot) (i : ℕ)
    → s.hash ≡ map.hfunc s.key
    → IsWord map.hfunc s.key
    → ((n : ℕ) × Route map.table map.mask n
          (bit_and (map.hfunc s.key) map.mask)
          (map.hfunc s.key)
          i)
    → Home map s i
home_of map s i own word (n, way) =
    (own, word, (n, subst (λ h. Route map.table map.mask n (bit_and h map.mask) h i) (sym own) way))

-- A table of 2^k slots: the counters count, a slot is left empty, and each key is in one slot at
-- most, where a search finds it.
pub record IsPlaced (k : ℕ) (map : HashMap) : Type 0 where
  pub width : k ≤ 30
  pub masked : map.mask ≡ 2 ^ k - 1
  pub sized : length map.table ≡ 2 ^ k
  pub filled : map.fill ≡ tally (λ s. is_used s.mode) map.table
  pub counted : map.count ≡ tally (λ s. is_active s.mode) map.table
  pub spare : map.fill < 2 ^ k
  pub apart : (key : ℕ) → tally (holds map.cmp key) map.table ≤ 1
  pub placed :
      (i : ℕ) (s : HashSlot)
      → get_elem? map.table i ≡ some s
      → is_active s.mode ≡ true
      → Home map s i

pub empty_of : (m : SlotMode) → is_used m ≡ false → m ≡ sl_empty
empty_of sl_empty h = refl
empty_of sl_active h = cc
empty_of sl_deleted h = cc

pub active_of : (m : SlotMode) → is_active m ≡ true → m ≡ sl_active
active_of sl_empty h = cc
active_of sl_active h = refl
active_of sl_deleted h = cc

module _ (map : HashMap) (laws : IsKey map.hfunc map.cmp) (k : ℕ) (v : IsPlaced k map)
    (key : ℕ) where
  -- In an active slot, the test of the loop asks whether the keys are equal.
  matches-holds :
      (i : ℕ) (s : HashSlot)
      → get_elem? map.table i ≡ some s
      → s.mode ≡ sl_active
      → matches map.cmp key (map.hfunc key) s ≡ holds map.cmp key s
  unfolding matches
  matches-holds i s at active =
      let home = v.placed i s at (rw active refl) in
      ground (arith, active, home.0, laws.same key, laws.hashed s.key key, ==_iff s.key key)

  inside : (x : ℕ) → bit_and x map.mask < length map.table
  inside x =
      let mask = ap (bit_and x) v.masked in
      let below = (masked_index k x).0 in omega (arith, v.sized, mask, below)

  -- A search meets an empty slot.
  spare_slot :
      (index perturb : ℕ)
      → perturb < 2 ^ 32
      → (m : ℕ) × (m < 7 + 2 ^ k) × Has map (bit_and (index_at m index perturb) map.mask) sl_empty
  spare_slot index perturb h =
      let (e, s, at, unused) =
        tally-lt (λ s. is_used s.mode) map.table (omega (arith, v.sized, v.filled, v.spare)) in
      let below : e < 2 ^ k = omega (arith, get_elem?-inside map.table e s at, v.sized) in
      let (m, few, meets) = visits k (32 - k) index perturb e (omega (arith, v.width)) h below in
      let here : bit_and (index_at m index perturb) map.mask ≡ e =
        ap (bit_and (index_at m index perturb)) v.masked ∙ meets in
      (m, few, (s, ap (get_elem? map.table) here ∙ at, empty_of s.mode unused))

  -- The search starts at the slot that its index is masked to.
  start : bit_and (bit_and (map.hfunc key) map.mask) map.mask ≡ bit_and (map.hfunc key) map.mask
  start = rw v.masked ((masked_index k (map.hfunc key)).1)

  lookup-probe :
      (fuel : ℕ) {i : ℕ}
      → (let index = bit_and (map.hfunc key) map.mask in
          probe fuel map key (map.hfunc key) index (map.hfunc key) (bit_and index map.mask) none
          ≡ some i)
      → hash_lookup fuel map key (map.hfunc key) ≡ some i
  unfolding hash_lookup
  lookup-probe fuel e =
      let index = bit_and (map.hfunc key) map.mask in
      ap (λ slot. probe fuel map key (map.hfunc key) index (map.hfunc key) slot none) (sym start)
      ∙ e

  holds_active : (s : HashSlot) → holds map.cmp key s ≡ true → s.mode ≡ sl_active
  holds_active s h = active_of s.mode (ground arith)

  -- A key that is in a slot is found there.
  pub lookup-finds :
      (fuel i : ℕ) (s : HashSlot)
      → 7 + 2 ^ k ≤ fuel
      → IsWord map.hfunc key
      → get_elem? map.table i ≡ some s
      → holds map.cmp key s ≡ true
      → hash_lookup fuel map key (map.hfunc key) ≡ some i
  lookup-finds fuel i s enough word at held =
      let active = holds_active s held in
      let (own, w, (n, way)) = v.placed i s at (rw active refl) in
      let equal : map.cmp s.key key ≡ true = ground arith in
      let hash : s.hash ≡ map.hfunc key = own ∙ laws.hashed s.key key equal in
      let index = bit_and (map.hfunc key) map.mask in
      let route : Route map.table map.mask n index (map.hfunc key) i =
        subst (λ h. Route map.table map.mask n (bit_and h map.mask) h i) hash way in
      let (m, few, e) = spare_slot index (map.hfunc key) word in
      let short = Route-le map m n index (map.hfunc key) i route e in
      lookup-probe fuel (
        probe-finds map key (map.hfunc key) i s at active (matches-holds i s at active ∙ held)
          (λ j t at' act hit.
            tally-one (holds map.cmp key) map.table j i t s (v.apart key) at' at
              (sym (matches-holds j t at' act) ∙ hit) held)
          n fuel index (map.hfunc key) none (omega arith) route)

  -- The search for a key that is in no slot ends, at a slot that is free.
  pub lookup-idle :
      (fuel : ℕ)
      → 7 + 2 ^ k ≤ fuel
      → IsWord map.hfunc key
      → tally (holds map.cmp key) map.table ≡ 0
      → (j : ℕ) × (s : HashSlot) × (hash_lookup fuel map key (map.hfunc key) ≡ some j)
        × (get_elem? map.table j ≡ some s)
        × (is_active s.mode ≡ false)
        × ((n : ℕ) × Route map.table map.mask n
              (bit_and (map.hfunc key) map.mask)
              (map.hfunc key)
              j)
  lookup-idle fuel enough word out =
      let index = bit_and (map.hfunc key) map.mask in
      let (m, few, e) = spare_slot index (map.hfunc key) word in
      let (j, n, s, run, way, at, idle) =
        probe-idle map key (map.hfunc key) inside
          (λ j s at act. matches-holds j s at act ∙ none_holds j s at) m fuel index (map.hfunc key)
          (omega arith) e in
      (j, s, lookup-probe fuel run, at, idle, (n, way))
    where
      none_holds :
          (j : ℕ) (s : HashSlot) → get_elem? map.table j ≡ some s → holds map.cmp key s ≡ false
      none_holds j s at = ground (arith, tally-at (holds map.cmp key) map.table j s at, out)
