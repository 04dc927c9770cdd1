-- ===== src/HashTable/Full.antt =====
-- kernel/hash.c: a table that cannot grow for want of memory.
use Prim.Native.Nat.{bit_and}
use advanced_operating_syste.Base.{
  ℕ, zero, suc, ◌+◌, ◌*◌, ◌^◌, ◌≤◌, ◌<◌, ◌≡◌, inl, inr, refl, ◌∙◌, ap, Bool, true, false, Option,
  none, some, arith, or_else, ==-ne, get_elem?, length, length-set, Option-cases,
}
use advanced_operating_syste.Base.Int.{negsuc}
use advanced_operating_syste.HashTable.{
  HashMap, HashSlot, sl_active, matches, probe, hash_lookup, hash_update, hash_set, hash_get,
  hash_isset, hash_del, occupy,
}
use advanced_operating_syste.HashTable.Probe.{step-miss, step-deleted, mode-cases}
use advanced_operating_syste.Base.Bits.{pow_pos}
use advanced_operating_syste.HashTable.Reference.{is_used, value_of, none-tally}
use advanced_operating_syste.HashTable.Valid.{IsKey, IsWord, IsPlaced, lookup-idle, home_of}
use advanced_operating_syste.HashTable.Lookup.{hash_get-equal}
use advanced_operating_syste.HashTable.Write.{occupied-value, occupy-IsPlaced}
use advanced_operating_syste.HashTable.Copy.{free-empty, occupied-empty}
use advanced_operating_syste.HashTable.Update.{size-grows, pow_le}
use advanced_operating_syste.HashTable.Contents.{new_slot, set_runs}

module _ (map : HashMap) (key : ℕ)
    (full : (i : ℕ) (s : HashSlot)
      → get_elem? map.table i ≡ some s
      → (is_used s.mode ≡ true)
        × (s.mode ≡ sl_active → matches map.cmp key (map.hfunc key) s ≡ false)) where
  probe_forever :
      (fuel index perturb slot : ℕ) (freeslot : Option ℕ)
      → probe fuel map key (map.hfunc key) index perturb slot freeslot ≡ none
  unfolding probe
  probe_forever zero index perturb slot freeslot = refl
  probe_forever (suc fuel) index perturb slot freeslot =
      elim (Option-cases (get_elem? map.table slot)) [
        | inl out ↦ rw (out, probe) refl
        | inr (s, at) ↦ elim (mode-cases s.mode) [
          | inl empty ↦ absurd (ground (arith, (full slot s at).0, empty))
          | inr (inl act) ↦
              step-miss map key (map.hfunc key) fuel index perturb slot freeslot s at act
                ((full slot s at).1 act)
              ∙ probe_forever fuel _ _ _ freeslot
          | inr (inr deleted) ↦
              step-deleted map key (map.hfunc key) fuel index perturb slot freeslot s at deleted
              ∙ probe_forever fuel _ _ _ (some (or_else freeslot slot))
        ]
      ]

  -- In a table without an empty slot, no call for a key that is in no slot ever returns, however
  -- many rounds the search is given.
  pub calls_forever :
      (fuel default_value value : ℕ) (memory : Bool)
      → (hash_get fuel (some map) key default_value ≡ none)
        × (hash_isset fuel (some map) key ≡ none)
        × (hash_set fuel memory map key value ≡ none)
        × (hash_del fuel memory map key ≡ none)
  unfolding hash_get hash_isset hash_set hash_del hash_lookup
  calls_forever fuel default_value value memory =
      let e =
        probe_forever fuel (bit_and (map.hfunc key) map.mask) (map.hfunc key)
          (bit_and (map.hfunc key) map.mask) none in
      (rw e refl, rw e refl, rw e refl, rw e refl)

module _ (map : HashMap) (laws : IsKey map.hfunc map.cmp) (k : ℕ) (v : IsPlaced k map)
    (tight : map.fill ≡ map.count) (most : k ≤ 29) (room : map.fill + 1 < 2 ^ k)
    (loaded : 2 * 2 ^ k ≤ 3 * (map.fill + 1)) (fuel key value default_value : ℕ)
    (enough : 7 + 2 ^ k ≤ fuel) (word : IsWord map.hfunc key)
    (out : value_of map.cmp key map.table ≡ none) where
  update_fails :
      (next : HashMap)
      → next.mask ≡ map.mask
      → next.fill ≡ map.fill + 1
      → hash_update fuel false next ≡ some (next, negsuc 0)
  unfolding hash_update
  update_fails next mask fill =
      let whole : next.mask + 1 ≡ 2 ^ k = omega (arith, mask, v.masked, pow_pos k) in
      let bound = pow_le k 29 most in
      let grows =
        size-grows next (ground (arith, whole, fill, loaded)) (ground (arith, whole, bound)) in
      let other = ==-ne (2 * (next.mask + 1)) (next.mask + 1) (λ e. omega (arith, e)) in
      rw (grows, hash_update, other) refl

  -- `hash_set` of a new key, in a table without deleted slots that is due to grow, when there is no
  -- memory: the call returns -1, but the key is in the table all the same, and takes an empty slot.
  pub hash_set_no_memory :
      (m : HashMap) × (hash_set fuel false map key value ≡ some (m, negsuc 0))
      × (hash_get fuel (some m) key default_value ≡ some value)
      × (m.fill ≡ map.fill + 1)
      × (length m.table ≡ length map.table)
  unfolding occupy
  hash_set_no_memory =
      let unheld = none-tally map.cmp key map.table out in
      let (j, s, run, at, idle, way) = lookup-idle map laws k v key fuel enough word unheld in
      let new = new_slot map key value in
      let next = occupy j s new map in
      let placed =
        occupy-IsPlaced map laws k v j s new at idle refl unheld room
          (home_of map new j refl word way) in
      let empty = free-empty map k v tight j s at idle in
      let fill : next.fill ≡ map.fill + 1 = ap (λ m. m.fill) (occupied-empty j s new map empty) in
      let value_there : value_of map.cmp key next.table ≡ some value =
        occupied-value map laws k v j s new at idle refl unheld key ∙ rw (laws.same key) refl in
      (
        next,
        set_runs fuel false map key value j s run at idle ∙ update_fails next refl fill,
        (hash_get-equal next laws k placed fuel key default_value enough word).0
            ∙ ap (λ o. some (or_else o default_value)) value_there,
        fill,
        length-set map.table j new,
      )
