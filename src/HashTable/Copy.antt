-- ===== src/HashTable/Copy.antt =====
-- kernel/hash.c: `hash_copy` into a table that has no deleted slots.
use advanced_operating_syste.Base.{
  ℕ, suc, ◌+◌, ◌^◌, ◌≤◌, ◌<◌, ◌≡◌, inl, inr, refl, ◌∙◌, ap, subst, true, false, Option, none, some,
  List, [], ◌∷◌, arith, if◌then◌else◌, ◌>>=◌, get_elem?, set, Bool-cases,
}
use advanced_operating_syste.HashTable.{
  HashMap, HashSlot, SlotMode, sl_empty, sl_active, sl_deleted, is_active, occupy, hash_lookup,
  hash_copy,
}
use advanced_operating_syste.HashTable.Probe.{mode-cases}
use advanced_operating_syste.HashTable.Reference.{
  used_of, holds, bit, tally, tally-set, tally-strict, value_of, value_of-none,
}
use advanced_operating_syste.HashTable.Valid.{
  IsKey, IsPlaced, IsWord, lookup-idle, empty_of, active_of, home_of,
}
use advanced_operating_syste.HashTable.Write.{used, active, occupied-value, occupy-IsPlaced}

abbrev pub or_some {ℓ} : {A : Type ℓ} → Option A → Option A → Option A
or_some none o = o
or_some (some a) o = some a

-- Active slots have the hash codes of their keys, of 32 bits.
abbrev pub Hashed : (ℕ → ℕ) → List HashSlot → Type 0
Hashed hfunc t =
    (i : ℕ) (s : HashSlot)
    → get_elem? t i ≡ some s
    → is_active s.mode ≡ true
    → (s.hash ≡ hfunc s.key) × IsWord hfunc s.key

abbrev pub refilled : HashMap → ℕ → ℕ → List HashSlot → HashMap
refilled map fill count table = record map { fill = fill; count = count; table = table }

-- What the copy of the slots `rest` into a table does.
abbrev pub Copies : ℕ → ℕ → List HashSlot → HashMap → Type 0
Copies fuel k rest map =
    (fill : ℕ) × (count : ℕ) × (t : List HashSlot) × (hash_copy fuel rest map
      ≡ some (refilled map fill count t))
    × (fill ≡ map.fill + tally active rest)
    × IsPlaced k (refilled map fill count t)
    × ((key : ℕ)
        → value_of map.cmp key t
          ≡ or_some (value_of map.cmp key rest) (value_of map.cmp key map.table))

module _ (map : HashMap) (k : ℕ) (v : IsPlaced k map) (tight : map.fill ≡ map.count) where
  -- In a table without deleted slots a free slot is empty.
  pub free-empty :
      (i : ℕ) (s : HashSlot)
      → get_elem? map.table i ≡ some s
      → is_active s.mode ≡ false
      → s.mode ≡ sl_empty
  free-empty i s at idle = elim (Bool-cases (used s)) [
    | inr e ↦ empty_of s.mode e
    | inl e ↦
        let more = tally-strict active used (λ s. used_of s.mode) map.table i s at idle e in
        absurd (omega (arith, more, tight, v.filled, v.counted))
  ]

pub occupied-empty :
    (i : ℕ) (s new : HashSlot) (map : HashMap)
    → s.mode ≡ sl_empty
    → occupy i s new map ≡ refilled map (map.fill + 1) (map.count + 1) (set map.table i new)
unfolding occupy
occupied-empty i s new map e = rw e refl

on_active {ℓ} :
    {R : Type ℓ} (m : SlotMode) (a b : R)
    → m ≡ sl_active
    → (elim m [ sl_empty ↦ a | sl_deleted ↦ a | sl_active ↦ b ]) ≡ b
on_active m a b e = rw e refl

-- The slot with an active mode at the head is copied, and then the rest.
module _ (fuel k : ℕ) (old : HashSlot) (rest : List HashSlot) where
  skipped :
      (map : HashMap)
      → is_active old.mode ≡ false
      → hash_copy fuel (old ∷ rest) map ≡ hash_copy fuel rest map
  unfolding hash_copy
  skipped map idle = elim (mode-cases old.mode) [
    | inl e ↦ rw (e, hash_copy) refl
    | inr (inl e) ↦ absurd (ground (arith, e, idle))
    | inr (inr e) ↦ rw (e, hash_copy) refl
  ]

  copied :
      (map : HashMap) (j : ℕ)
      → old.mode ≡ sl_active
      → hash_lookup fuel map old.key (map.hfunc old.key) ≡ some j
      → hash_copy fuel (old ∷ rest) map
        ≡ hash_copy fuel rest (refilled map (map.fill + 1) (map.count + 1) (set map.table j old))
  unfolding hash_copy
  copied map j e run =
      on_active old.mode _ _ e
      ∙ ap
          (λ o. o >>= λ j.
            hash_copy fuel rest (refilled map (map.fill + 1) (map.count + 1) (set map.table j old)))
          run

Hashed-tail :
    (hfunc : ℕ → ℕ) (old : HashSlot) (rest : List HashSlot)
    → Hashed hfunc (old ∷ rest)
    → Hashed hfunc rest
Hashed-tail hfunc old rest h i s at act = h (suc i) s at act

-- The key of an active slot that is copied is in no slot of the new table, and in no further one.
module _ (map : HashMap) (laws : IsKey map.hfunc map.cmp) (old : HashSlot) (rest : List HashSlot)
    (act : is_active old.mode ≡ true)
    (apart : (key : ℕ)
      → tally (holds map.cmp key) (old ∷ rest) + tally (holds map.cmp key) map.table ≤ 1) where
  copied_out : tally (holds map.cmp old.key) map.table ≡ 0
  unfolding tally
  copied_out = ground (arith, apart old.key, act, laws.same old.key)

  copied_value :
      (key : ℕ)
      → or_some
          (value_of map.cmp key rest)
          (if map.cmp old.key key then some old.value else value_of map.cmp key map.table)
        ≡ or_some (value_of map.cmp key (old ∷ rest)) (value_of map.cmp key map.table)
  unfolding tally value_of
  copied_value key = elim (Bool-cases (map.cmp old.key key)) [
    | inr e ↦ rw (act, e) refl
    | inl e ↦
        let none_left : tally (holds map.cmp key) rest ≡ 0 = ground (arith, apart key, act, e) in
        rw (act, e, value_of-none map.cmp key rest none_left) refl
  ]

module _ (fuel k : ℕ) (enough : 7 + 2 ^ k ≤ fuel) where
  pub hash_copy-Copies :
      (rest : List HashSlot) (map : HashMap)
      → IsKey map.hfunc map.cmp
      → IsPlaced k map
      → map.fill ≡ map.count
      → Hashed map.hfunc rest
      → map.fill + tally active rest < 2 ^ k
      → ((key : ℕ) → tally (holds map.cmp key) rest + tally (holds map.cmp key) map.table ≤ 1)
      → Copies fuel k rest map
  unfolding hash_copy tally
  hash_copy-Copies [] map laws v tight hashed fits apart =
      (map.fill, map.count, map.table, refl, omega arith, v, λ key. unfold value_of in refl)
  hash_copy-Copies (old ∷ rest) map laws v tight hashed fits apart =
      elim (Bool-cases (active old)) [
        | inr idle ↦
            let (fill, count, t, run, sum, placed, value) =
              hash_copy-Copies rest map laws v tight (Hashed-tail map.hfunc old rest hashed)
                (omega (arith, fits, ap bit idle)) (λ key. ground (arith, apart key, idle)) in
            (
              fill,
              count,
              t,
              skipped fuel k old rest map idle ∙ run,
              omega (arith, ap bit idle, sum),
              placed,
              λ key. value key ∙ unfold value_of in (rw idle refl),
            )
        | inl act ↦
            let (own, word) = hashed 0 old refl act in
            let out = copied_out map laws old rest act apart in
            let (j, s, run, at, free, way) =
              lookup-idle map laws k v old.key fuel enough word out in
            let empty = free-empty map k v tight j s at free in
            let next = refilled map (map.fill + 1) (map.count + 1) (set map.table j old) in
            let room : map.fill + 1 < 2 ^ k = omega (arith, fits, ap bit act) in
            let home = home_of map old j own word way in
            let placed : IsPlaced k next =
              subst (IsPlaced k) (occupied-empty j s old map empty)
                (occupy-IsPlaced map laws k v j s old at free act out room home) in
            let written = occupied-value map laws k v j s old at free act out in
            let (fill, count, t, rest_run, sum, done, value) =
              hash_copy-Copies rest next laws placed (ap (λ n. n + 1) tight)
                (Hashed-tail map.hfunc old rest hashed) (omega (arith, fits, ap bit act))
                (λ key.
                  omega (arith, apart key, tally-set (holds map.cmp key) map.table j s old at)) in
            (
              fill,
              count,
              t,
              copied fuel k old rest map j (active_of old.mode act) run ∙ rest_run,
              omega (arith, ap bit act, sum),
              done,
              λ key.
                  value key
                  ∙ ap (or_some (value_of map.cmp key rest)) (written key)
                  ∙ copied_value map laws old rest act apart key,
            )
      ]
