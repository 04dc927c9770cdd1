-- ===== src/HashTable/Reach.antt =====
-- kernel/hash.c: histories of calls on one table, and the finite map that they make.
use advanced_operating_syste.Base.{
  ℕ, ◌+◌, ◌*◌, ◌^◌, ◌≤◌, ◌<◌, ◌≡◌, inl, inr, refl, ◌∙◌, sym, ap, subst, Bool, true, Option, none,
  some, arith, if◌then◌else◌, or_else, leb, replicate, Bool-cases,
}
use advanced_operating_syste.Base.Int.{ℤ, pos}
use advanced_operating_syste.HashTable.{
  HashMap, empty_slot, hash_init, hash_initialize, hash_set, hash_del, hash_get,
}
use advanced_operating_syste.Base.Bits.{pow_pos}
use advanced_operating_syste.HashTable.Reference.{value_of}
use advanced_operating_syste.HashTable.Valid.{IsKey, IsWord}
use advanced_operating_syste.HashTable.Lookup.{hash_get-equal}
use advanced_operating_syste.HashTable.Update.{
  IsValid, reshaped, pow_le, cleared-IsPlaced, cleared-value,
}
use advanced_operating_syste.HashTable.Contents.{Leaves, hash_set-Leaves, hash_del-Leaves}

-- The number of slots up to which a table may be doubled, and rounds that are enough for every
-- table.
abbrev pub max_slots : ℕ
max_slots = 2 ^ 29

abbrev pub rounds : ℕ
rounds = 7 + 2 ^ 31

small-k : (k : ℕ) → 2 ^ k ≤ max_slots → k ≤ 29
small-k k h = elim (Bool-cases (leb 30 k)) [
  | inl large ↦ absurd (omega (arith, h, pow_le 30 k (ground arith)))
  | inr small ↦ ground arith
]

module _ (hfunc : ℕ → ℕ) (cmp : ℕ → ℕ → Bool) where
  -- The tables that a history of calls leads to, each call with memory and on a table that may be
  -- doubled, beside the map that the calls say: from a new table, which has no key.
  pub data Reach : HashMap → (ℕ → Option ℕ) → Type 0 where
    created :
        {m : HashMap} {r : ℤ} (before : HashMap)
        → hash_init true hfunc cmp before ≡ (m, r)
        → Reach m (λ _. none)
    sets :
        {m m' : HashMap} {f : ℕ → Option ℕ} {r : ℤ} (key value : ℕ)
        → IsWord hfunc key
        → Reach m f
        → m.mask < max_slots
        → hash_set rounds true m key value ≡ some (m', r)
        → Reach m' (λ q. if cmp key q then some value else f q)
    deletes :
        {m m' : HashMap} {f : ℕ → Option ℕ} {r : ℤ} (key : ℕ)
        → IsWord hfunc key
        → Reach m f
        → m.mask < max_slots
        → hash_del rounds true m key ≡ some (m', r)
        → Reach m' (λ q. if cmp key q then none else f q)

  -- A valid table with the functions that it was created with, and what it stands for.
  pub record Means (m : HashMap) (f : ℕ → Option ℕ) : Type 0 where
    pub size : ℕ
    pub valid : IsValid size m
    pub own_hfunc : m.hfunc ≡ hfunc
    pub own_cmp : m.cmp ≡ cmp
    pub held : (q : ℕ) → value_of cmp q m.table ≡ f q

  module _ (laws : IsKey hfunc cmp) where
    pub own_laws : {m : HashMap} {f : ℕ → Option ℕ} → Means m f → IsKey m.hfunc m.cmp
    own_laws {m = m} h =
        subst (λ g. IsKey m.hfunc g) (sym h.own_cmp)
          (subst (λ g. IsKey g cmp) (sym h.own_hfunc) laws)

    Leaves-Means :
        {m m' : HashMap} {f : ℕ → Option ℕ} {r : ℤ} (o : Option (HashMap × ℤ)) (g g' : ℕ → Option ℕ)
        (h : Means m f)
        → Leaves m h.size g o
        → o ≡ some (m', r)
        → ((q : ℕ) → g q ≡ g' q)
        → Means m' g'
    Leaves-Means {m = m} {m' = m'} {r = r} o g g' h l e agree =
        let (k, fill, count, mask, t, run, valid, holds, close) = l in
        let left = reshaped m fill count mask t in
        let results : some (left, pos 0) ≡ some (m', r) = sym run ∙ e in
        let same : left ≡ m' = ground (arith, results) in
        subst (λ m. Means m g') same
          (record {
            size = k;
            valid = valid;
            own_hfunc = h.own_hfunc;
            own_cmp = h.own_cmp;
            held = λ q. ap (λ c. value_of c q t) (sym h.own_cmp) ∙ holds q ∙ agree q;
          })

    pub may_double :
        {m : HashMap} {f : ℕ → Option ℕ} (h : Means m f) → m.mask < max_slots → h.size ≤ 29
    may_double h small =
        let p = h.valid.placed in small-k h.size (omega (arith, p.masked, small, pow_pos h.size))

    pub enough_rounds : (k : ℕ) → k ≤ 29 → 7 + 2 * 2 ^ k ≤ rounds
    enough_rounds k most = omega (arith, pow_le k 29 most)

    -- Every table of a history is valid and stands for the map.
    pub Reach-Means : {m : HashMap} {f : ℕ → Option ℕ} → Reach m f → Means m f
    unfolding hash_init hash_initialize
    Reach-Means (created {m} {r} before e) =
        let new = record (reshaped before 0 0 7 (replicate 8 empty_slot)) {
          hfunc = hfunc;
          cmp = cmp;
        } in
        let results : ◌≡◌ {A = HashMap × ℤ} (new, pos 0) (m, r) = e in
        let same : new ≡ m = ap (λ x. x.0) results in
        subst (λ m. Means m (λ _. none)) same
          (record {
            size = 3;
            valid = record {
              at_least = omega arith;
              loaded = omega arith;
              placed = cleared-IsPlaced new 3 (omega arith);
            };
            own_hfunc = refl;
            own_cmp = refl;
            held = λ q. cleared-value new 3 (omega arith) q;
          })
    Reach-Means (sets {m} {m'} {f} {r} key value word reach small e) =
        let h = Reach-Means reach in
        let most = may_double h small in
        Leaves-Means (hash_set rounds true m key value) _ _ h
          (hash_set-Leaves m (own_laws h) h.size h.valid rounds (enough_rounds h.size most) most key
            (subst (λ g. IsWord g key) (sym h.own_hfunc) word) value)
          e (λ q. rw (h.own_cmp, h.held q) refl)
    Reach-Means (deletes {m} {m'} {f} {r} key word reach small e) =
        let h = Reach-Means reach in
        let most = may_double h small in
        Leaves-Means (hash_del rounds true m key) _ _ h
          (hash_del-Leaves m (own_laws h) h.size h.valid rounds (enough_rounds h.size most) most key
            (subst (λ g. IsWord g key) (sym h.own_hfunc) word))
          e (λ q. rw (h.own_cmp, h.held q) refl)

    -- After any history of `hash_set` and `hash_del` from a new table, each with memory and on a
    -- table of at most 2^29 slots, `hash_get` ends and gives what the map made by the same calls
    -- gives: for every key the value set last, or the default if there is none or it was deleted
    -- since.
    pub Reach-get :
        {m : HashMap} {f : ℕ → Option ℕ}
        → Reach m f
        → (key default_value : ℕ) → IsWord hfunc key
        → hash_get rounds (some m) key default_value ≡ some (or_else (f key) default_value)
    Reach-get {m} {f} reach key default_value word =
        let h = Reach-Means reach in
        let p = h.valid.placed in
        (hash_get-equal m (own_laws h) h.size p rounds key default_value
          (omega (arith, pow_le h.size 30 p.width))
          (subst (λ g. IsWord g key) (sym h.own_hfunc) word)).0
        ∙ ap (λ c. some (or_else (value_of c key m.table) default_value)) h.own_cmp
        ∙ ap (λ o. some (or_else o default_value)) (h.held key)
