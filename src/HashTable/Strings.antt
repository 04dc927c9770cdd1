-- ===== src/HashTable/Strings.antt =====
-- kernel/hash.c: tables whose keys are strings.
mod Tests
use advanced_operating_syste.Base.{
  ℕ, ◌+◌, ◌*◌, ◌%◌, ◌^◌, ◌<◌, ◌≡◌, refl, ◌∙◌, sym, ap, subst, Bool, true, false, Option, none, some,
  List, [], ◌∷◌, arith, if◌then◌else◌, or_else, Bool-cases, inl, inr, ◌⊎◌, ◌↔◌, ltb,
}
use Prim.Native.Nat.{bit_xor}
use advanced_operating_syste.Base.Int.{ℤ, pos, ◌==ℤ◌}
use advanced_operating_syste.Base.Bits.{bit_xor-lt}
use advanced_operating_syste.HashTable.{
  HashMap, hash_set, hash_get, char_word, hash_string_from, hash_string_hfunc, hash_string_cmp,
}
use advanced_operating_syste.HashTable.Valid.{IsKey}
use advanced_operating_syste.HashTable.Reach.{
  Reach, sets, Reach-get, Reach-Means, own_laws, may_double, enough_rounds, max_slots, rounds,
}
use advanced_operating_syste.HashTable.Roundtrip.{hash_set-get}

char_word-lt : (c : ℕ) → char_word c < 2 ^ 32
char_word-lt c = ground arith

hash_string_from-lt : (key : List ℕ) (hash : ℕ) → hash < 2 ^ 32 → hash_string_from key hash < 2 ^ 32
unfolding hash_string_from
hash_string_from-lt [] hash h = h
hash_string_from-lt (c ∷ rest) hash h = hash_string_from-lt rest _ (
    bit_xor-lt 32 ((hash * 2 ^ 5 % 2 ^ 32 + hash) % 2 ^ 32) (char_word c) (omega arith)
      (char_word-lt c))

-- The hash code of a string is a number of 32 bits.
pub hash_string_hfunc-lt : (key : List ℕ) → hash_string_hfunc key < 2 ^ 32
unfolding hash_string_hfunc
hash_string_hfunc-lt key = hash_string_from-lt key 5381 (omega arith)

-- What the C library says of `strcmp`: it answers 0 for equal strings, and for no others.
abbrev pub ComparesEqual : (List ℕ → List ℕ → ℤ) → Type 0
ComparesEqual strcmp = (a b : List ℕ) → ((strcmp a b ==ℤ pos 0) ≡ true) ↔ (a ≡ b)

module _ (strcmp : List ℕ → List ℕ → ℤ) (text : ℕ → List ℕ) (compares : ComparesEqual strcmp) where
  abbrev hfunc : ℕ → ℕ
  hfunc key = hash_string_hfunc (text key)

  abbrev cmp : ℕ → ℕ → Bool
  cmp = hash_string_cmp strcmp text

  equal_text : (a b : ℕ) → cmp a b ≡ true → text a ≡ text b
  unfolding hash_string_cmp
  equal_text a b h = (compares (text a) (text b)).0 h

  text_equal : (a b : ℕ) → text a ≡ text b → cmp a b ≡ true
  unfolding hash_string_cmp
  text_equal a b e = (compares (text a) (text b)).1 e

  -- The two functions are as the table wants them.
  pub string-IsKey : IsKey hfunc cmp
  string-IsKey = record {
    same = λ a. text_equal a a refl;
    swap = λ a b h. text_equal b a (sym (equal_text a b h));
    join = λ a b c h k. text_equal a c (equal_text a b h ∙ equal_text b c k);
    hashed = λ a b h. ap hash_string_hfunc (equal_text a b h);
  }

  -- A string set is found again under every address at which it stands, and no other.
  read_after :
      {m m' : HashMap} {f : ℕ → Option ℕ} {r : ℤ} (key other value default_value : ℕ)
      → Reach hfunc cmp m f
      → m.mask < max_slots
      → hash_set rounds true m key value ≡ some (m', r)
      → ((text key ≡ text other) × (hash_get rounds (some m') other default_value ≡ some value))
        ⊎ (((text key ≡ text other) → ⊥)
            × (hash_get rounds (some m') other default_value
                ≡ hash_get rounds (some m) other default_value))
  read_after {m} {m'} key other value default_value reach small e =
      let after = sets key value (hash_string_hfunc-lt (text key)) reach small e in
      let word = hash_string_hfunc-lt (text other) in
      let now = Reach-get hfunc cmp string-IsKey after other default_value word in
      let before = Reach-get hfunc cmp string-IsKey reach other default_value word in
      elim (Bool-cases (cmp key other)) [
        | inl same ↦ inl (equal_text key other same, now ∙ rw same refl)
        | inr differs ↦
            inr
              (λ t. ground (arith, text_equal key other t, differs), now ∙ rw differs (sym before))
      ]

  -- On a table with strings as keys, after any history of `hash_set` and `hash_del` from a new one,
  -- each with memory and on a table of at most 2^29 slots, such a `hash_set` succeeds: `hash_get`
  -- then gives the value for every address at which the same string stands, and for an address with
  -- another string what it gave before.
  pub string_set-get :
      {m : HashMap} {f : ℕ → Option ℕ} (key other value default_value : ℕ)
      → Reach hfunc cmp m f
      → m.mask < max_slots
      → (m' : HashMap) × (hash_set rounds true m key value ≡ some (m', pos 0))
        × (((text key ≡ text other) × (hash_get rounds (some m') other default_value ≡ some value))
            ⊎ (((text key ≡ text other) → ⊥)
                × (hash_get rounds (some m') other default_value
                    ≡ hash_get rounds (some m) other default_value)))
  string_set-get {m} key other value default_value reach small =
      let h = Reach-Means hfunc cmp string-IsKey reach in
      let most = may_double hfunc cmp string-IsKey h small in
      let (m', run, _) =
        hash_set-get m (own_laws hfunc cmp string-IsKey h) h.size h.valid most rounds
          (enough_rounds hfunc cmp string-IsKey h.size most) key
          (subst (λ g. g key < 2 ^ 32) (sym h.own_hfunc) (hash_string_hfunc-lt (text key))) value in
      (m', run, read_after key other value default_value reach small run)
