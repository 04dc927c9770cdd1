-- ===== src/HashTable/Fresh.antt =====
-- kernel/hash.c: a new table, and the first key in it.
use Prim.Native.Nat.{bit_and}
use advanced_operating_syste.Base.{
  ℕ, zero, suc, ◌+◌, ◌*◌, ◌/◌, ◌%◌, ◌^◌, ◌<◌, ◌≡◌, refl, ◌∙◌, ap, Bool, true, false, some, arith,
  get_elem?, replicate,
}
use advanced_operating_syste.Base.Bits.{bit_and-mask}
use advanced_operating_syste.HashTable.{
  HashMap, empty_slot, probe, hash_lookup, hash_initialize, hash_init, hash_isset, hash_get,
}

get_elem?-replicate {ℓ} :
    {A : Type ℓ} (n i : ℕ) (a : A) → i < n → get_elem? (replicate n a) i ≡ some a
get_elem?-replicate zero i a h = absurd (omega arith)
get_elem?-replicate (suc n) zero a h = refl
get_elem?-replicate (suc n) (suc i) a h = get_elem?-replicate n i a (omega arith)

module _ (hfunc : ℕ → ℕ) (cmp : ℕ → ℕ → Bool) (before : HashMap) where
  abbrev pub new : HashMap
  unfolding hash_init
  new = (hash_init true hfunc cmp before).0

  index-mask : (hash : ℕ) → bit_and hash 7 ≡ hash % 8
  index-mask hash =
      let split : hash ≡ hash / 8 * 2 ^ 3 + hash % 8 = omega arith in
      ap (λ h. bit_and h 7) split ∙ bit_and-mask 3 (hash / 8) (hash % 8) (omega arith)

  slot-empty : (hash : ℕ) → get_elem? new.table (bit_and hash 7) ≡ some empty_slot
  unfolding hash_init hash_initialize
  slot-empty hash =
      ap (get_elem? new.table) (index-mask hash)
      ∙ get_elem?-replicate 8 (hash % 8) empty_slot (omega arith)

  lookup-empty : (fuel key hash : ℕ) → hash_lookup (suc fuel) new key hash ≡ some (bit_and hash 7)
  unfolding hash_lookup probe hash_init hash_initialize
  lookup-empty fuel key hash = rw (slot-empty hash) refl

  -- In a new table no key is present: the search ends at the first slot.
  pub hash_init-get :
      (fuel key default_value : ℕ)
      → (hash_get (suc fuel) (some new) key default_value ≡ some default_value)
        × (hash_isset (suc fuel) (some new) key ≡ some false)
  unfolding hash_get hash_isset hash_init hash_initialize
  hash_init-get fuel key default_value = (
    rw (lookup-empty fuel key (hfunc key), slot-empty (hfunc key)) refl,
    rw (lookup-empty fuel key (hfunc key), slot-empty (hfunc key)) refl,
  )
