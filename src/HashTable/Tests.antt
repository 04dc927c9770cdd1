-- ===== src/HashTable/Tests.antt =====
-- Examples for kernel/hash.c: tables in direct mode.
use advanced_operating_syste.Base.{
  ℕ, zero, suc, ◌+◌, ◌≡◌, refl, subst, true, false, Option, none, some, List, [], ◌∷◌, arith,
  ==_iff, ==-refl, if◌then◌else◌, or_else, ◌>>=◌, get_elem?, length, replicate, All,
}
use advanced_operating_syste.Base.Int.{pos, negsuc}
use advanced_operating_syste.HashTable.{
  HashMap, HashSlot, sl_active, empty_slot, matches, hash_direct_cmp, hash_direct_hfunc, hash_init,
  hash_initialize, hash_lookup, probe, hash_get, hash_set, hash_del, hash_isset, hash_update,
  new_size, occupy, hash_copy,
}
use advanced_operating_syste.HashTable.Reference.{is_used, tally, value_of}
use advanced_operating_syste.HashTable.Valid.{IsKey, IsPlaced}
use advanced_operating_syste.HashTable.Lookup.{is_some, hash_get-equal}
use advanced_operating_syste.HashTable.Write.{occupy-IsPlaced}
use advanced_operating_syste.HashTable.Update.{IsValid, cleared-IsPlaced}
use advanced_operating_syste.HashTable.Contents.{new_slot}
use advanced_operating_syste.HashTable.Reach.{Reach, created, sets, rounds, Reach-get}
use advanced_operating_syste.HashTable.Full.{calls_forever, hash_set_no_memory}

abbrev direct : HashMap
direct = record {
  fill = 0;
  count = 0;
  mask = 7;
  table = replicate 8 empty_slot;
  hfunc = hash_direct_hfunc;
  cmp = hash_direct_cmp;
}

direct-IsKey : IsKey hash_direct_hfunc hash_direct_cmp
unfolding hash_direct_hfunc hash_direct_cmp
direct-IsKey = record {
  same = λ a. ==-refl a;
  swap = λ a b h. ground arith;
  join = λ a b c h k. ground arith;
  hashed = λ a b h. (==_iff a b).0 h;
}

-- A key put into the slot with its number.
abbrev put : ℕ → HashMap → HashMap
unfolding occupy
put key map = occupy key empty_slot (new_slot map key (key + 100)) map

abbrev one : HashMap
one = put 2 direct

direct-IsPlaced : IsPlaced 3 direct
direct-IsPlaced = cleared-IsPlaced direct 3 (omega arith)

one-IsPlaced : IsPlaced 3 one
unfolding occupy hash_direct_hfunc hash_direct_cmp tally
one-IsPlaced =
    occupy-IsPlaced direct direct-IsKey 3 direct-IsPlaced 2 empty_slot (new_slot direct 2 102) refl
      refl refl refl (omega arith) (refl, omega arith, (0, refl))

one-IsValid : IsValid 3 one
unfolding occupy
one-IsValid = record { at_least = omega arith; loaded = omega arith; placed = one-IsPlaced }

-- The key 10 has the same first slot as 2.
hash_get-equal_example :
    (hash_get 15 (some one) 10 7 ≡ some (or_else (value_of one.cmp 10 one.table) 7))
    × (hash_isset 15 (some one) 10 ≡ some (is_some (value_of one.cmp 10 one.table)))
unfolding hash_direct_hfunc hash_direct_cmp put
hash_get-equal_example =
    hash_get-equal one direct-IsKey 3 one-IsPlaced 15 10 7 (omega arith) (omega arith)

one-Reach :
    Reach hash_direct_hfunc hash_direct_cmp one
      (λ q. if hash_direct_cmp 2 q then some 102 else none)
unfolding hash_init hash_initialize hash_set hash_lookup probe hash_update new_size occupy
    hash_direct_hfunc
one-Reach =
    sets {r = pos 0} 2 102 (omega arith) (created {r = pos 0} direct refl) (omega arith) refl

Reach-get_example : hash_get rounds (some one) 2 7 ≡ some 102
unfolding hash_direct_hfunc hash_direct_cmp
Reach-get_example =
    Reach-get hash_direct_hfunc hash_direct_cmp direct-IsKey one-Reach 2 7 (omega arith)

abbrev five : HashMap
five = put 4 (put 3 (put 1 (put 0 one)))

five-IsPlaced : IsPlaced 3 five
unfolding occupy hash_direct_hfunc hash_direct_cmp tally
five-IsPlaced =
    let a = one-IsPlaced in
    let b =
      occupy-IsPlaced one direct-IsKey 3 a 0 empty_slot (new_slot one 0 100) refl refl refl refl
        (omega arith) (refl, omega arith, (0, refl)) in
    let c =
      occupy-IsPlaced (put 0 one) direct-IsKey 3 b 1 empty_slot (new_slot (put 0 one) 1 101) refl
        refl refl refl (omega arith) (refl, omega arith, (0, refl)) in
    let d =
      occupy-IsPlaced (put 1 (put 0 one)) direct-IsKey 3 c 3 empty_slot
        (new_slot (put 1 (put 0 one)) 3 103) refl refl refl refl (omega arith)
        (refl, omega arith, (0, refl)) in
    occupy-IsPlaced (put 3 (put 1 (put 0 one))) direct-IsKey 3 d 4 empty_slot
      (new_slot (put 3 (put 1 (put 0 one))) 4 104) refl refl refl refl (omega arith)
      (refl, omega arith, (0, refl))

hash_set_no_memory_example :
    (m : HashMap) × (hash_set 15 false five 5 9 ≡ some (m, negsuc 0))
    × (hash_get 15 (some m) 5 7 ≡ some 9)
    × (m.fill ≡ 6)
    × (length m.table ≡ 8)
unfolding hash_direct_hfunc hash_direct_cmp occupy value_of
hash_set_no_memory_example =
    hash_set_no_memory five direct-IsKey 3 five-IsPlaced refl (omega arith) (omega arith)
      (omega arith) 15 5 9 7 (omega arith) (omega arith) refl

-- With no memory eight keys fill the table.
abbrev set_all : List ℕ → HashMap → Option HashMap
set_all [] map = some map
set_all (key ∷ keys) map = hash_set 15 false map key (key + 100) >>= λ r. set_all keys r.0

abbrev full : HashMap
full = put 7 (put 6 (put 5 five))

filled : set_all (2 ∷ 0 ∷ 1 ∷ 3 ∷ 4 ∷ 5 ∷ 6 ∷ 7 ∷ []) direct ≡ some full
unfolding hash_initialize hash_set hash_lookup probe hash_update new_size occupy hash_direct_hfunc
    hash_copy
filled = refl

All-at {ℓ κ} :
    {A : Type ℓ} (P : A → Type κ) (xs : List A) (i : ℕ) (a : A)
    → All P xs
    → get_elem? xs i ≡ some a
    → P a
All-at P [] i a h e = cc
All-at P (x ∷ xs) zero a h e = let same : x ≡ a = ground (arith, e) in subst P same h.0
All-at P (x ∷ xs) (suc i) a h e = All-at P xs i a h.1 e

abbrev Misses : HashSlot → Type 0
Misses s =
    (is_used s.mode ≡ true)
    × (s.mode ≡ sl_active → matches hash_direct_cmp 8 (hash_direct_hfunc 8) s ≡ false)

calls_forever_example :
    (hash_get 1000 (some full) 8 7 ≡ none)
    × (hash_isset 1000 (some full) 8 ≡ none)
    × (hash_set 1000 true full 8 9 ≡ none)
    × (hash_del 1000 true full 8 ≡ none)
unfolding put hash_direct_cmp hash_direct_hfunc matches
calls_forever_example =
    calls_forever full 8
      (λ i s at.
        All-at Misses full.table i s
          (
            (refl, λ _. refl),
            (
              (refl, λ _. refl),
              (
                (refl, λ _. refl),
                (
                  (refl, λ _. refl),
                  (
                    (refl, λ _. refl),
                    ((refl, λ _. refl), ((refl, λ _. refl), ((refl, λ _. refl), tt))),
                  ),
                ),
              ),
            ),
          )
          at)
      1000 7 9 true
