-- ===== src/HashTable/Strings/Tests.antt =====
-- Examples for kernel/hash.c: a table of strings.
use advanced_operating_syste.Base.{
  ℕ, suc, ◌≡◌, refl, ◌∙◌, ap, subst, true, false, none, some, List, [], ◌∷◌, arith, ◌==◌, ltb,
  if◌then◌else◌, Bool-cases, inl, inr, ◌⊎◌, ==_iff,
}
use advanced_operating_syste.Base.Int.{ℤ, pos, negsuc, ◌==ℤ◌}
use advanced_operating_syste.HashTable.{
  HashMap, hash_set, hash_get, hash_init, hash_initialize, hash_init_string, hash_string_hfunc,
  hash_string_cmp,
}
use advanced_operating_syste.HashTable.Reach.{Reach, created, rounds}
use advanced_operating_syste.HashTable.Strings.{ComparesEqual, string_set-get}

-- A `strcmp`.
compare : List ℕ → List ℕ → ℤ
compare [] [] = pos 0
compare [] (d ∷ ds) = negsuc d
compare (c ∷ cs) [] = pos (suc c)
compare (c ∷ cs) (d ∷ ds) =
    let rest = compare cs ds in if c == d then rest else if ltb c d then negsuc 0 else pos 1

compare_refl : (a : List ℕ) → (compare a a ==ℤ pos 0) ≡ true
unfolding compare
compare_refl [] = refl
compare_refl (c ∷ cs) = ground (arith, compare_refl cs)

equal_of : (a b : List ℕ) → (compare a b ==ℤ pos 0) ≡ true → a ≡ b
unfolding compare
equal_of [] [] h = refl
equal_of [] (d ∷ ds) h = cc
equal_of (c ∷ cs) [] h = absurd (ground (arith, h))
equal_of (c ∷ cs) (d ∷ ds) h = elim (Bool-cases (c == d)) [
  | inl e ↦
      let rest = equal_of cs ds (rw e at h) in
      ap (λ x. x ∷ cs) ((==_iff c d).0 e) ∙ ap (λ xs. d ∷ xs) rest
  | inr e ↦ absurd (ground (arith, h, e))
]

compare-ComparesEqual : ComparesEqual compare
compare-ComparesEqual a b =
    (equal_of a b, λ e. subst (λ b. (compare a b ==ℤ pos 0) ≡ true) e (compare_refl a))

-- "ab" stands at 10 and at 20, and "b" elsewhere.
abbrev text : ℕ → List ℕ
text key = if key == 10 then 97 ∷ 98 ∷ [] else if key == 20 then 97 ∷ 98 ∷ [] else 98 ∷ []

abbrev blank_map : HashMap
blank_map = record { fill = 0; count = 0; mask = 0; table = []; hfunc = λ _. 0; cmp = λ _ _. false }

abbrev strings : HashMap
strings = (hash_init_string compare text true blank_map).0

strings-Reach :
    Reach (λ key. hash_string_hfunc (text key)) (hash_string_cmp compare text) strings (λ _. none)
unfolding hash_init_string hash_init hash_initialize
strings-Reach = created {r = pos 0} blank_map refl

string_set-get_example :
    (m : HashMap) × (hash_set rounds true strings 10 5 ≡ some (m, pos 0))
    × (((text 10 ≡ text 20) × (hash_get rounds (some m) 20 7 ≡ some 5))
        ⊎ (((text 10 ≡ text 20) → ⊥)
            × (hash_get rounds (some m) 20 7 ≡ hash_get rounds (some strings) 20 7)))
unfolding hash_init_string hash_init hash_initialize
string_set-get_example =
    string_set-get compare text compare-ComparesEqual 10 20 5 7 strings-Reach (omega arith)
