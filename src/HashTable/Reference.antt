-- ===== src/HashTable/Reference.antt =====
-- kernel/hash.c: what a table stands for, read from its slots one after another, without hash
-- codes.
use advanced_operating_syste.Base.{
  ℕ, zero, suc, ◌+◌, ◌≤◌, ◌<◌, ◌≡◌, inl, inr, refl, ap, Bool, true, false, ◌&&◌, Option, none, some,
  List, [], ◌∷◌, arith, if◌then◌else◌, get_elem?, set, length, replicate, Bool-cases,
}
use advanced_operating_syste.HashTable.{
  HashSlot, SlotMode, sl_empty, sl_active, sl_deleted, is_active,
}

abbrev pub is_used : SlotMode → Bool
is_used sl_empty = false
is_used _ = true

pub used_of : (m : SlotMode) → is_active m ≡ true → is_used m ≡ true
used_of sl_active h = refl
used_of sl_deleted h = refl
used_of sl_empty h = cc

-- The slot has the key.
abbrev pub holds : (ℕ → ℕ → Bool) → ℕ → HashSlot → Bool
holds cmp key s = is_active s.mode && cmp s.key key

abbrev pub bit : Bool → ℕ
bit true = 1
bit false = 0

-- The number of slots that pass a test.
unfoldable pub tally : (HashSlot → Bool) → List HashSlot → ℕ
tally p [] = 0
tally p (s ∷ t) = bit (p s) + tally p t

-- The value that the first slot with the key has.
unfoldable pub value_of : (ℕ → ℕ → Bool) → ℕ → List HashSlot → Option ℕ
value_of cmp key [] = none
value_of cmp key (s ∷ t) = if holds cmp key s then some s.value else value_of cmp key t

module _ (p : HashSlot → Bool) where
  pub tally-set :
      (t : List HashSlot) (i : ℕ) (old new : HashSlot)
      → get_elem? t i ≡ some old
      → tally p (set t i new) + bit (p old) ≡ tally p t + bit (p new)
  unfolding tally
  tally-set [] i old new at = cc
  tally-set (s ∷ t) zero old new at =
      let same : s ≡ old = ground arith in omega (arith, ap (λ s. bit (p s)) same)
  tally-set (s ∷ t) (suc i) old new at = omega (arith, tally-set t i old new at)

  pub tally-at :
      (t : List HashSlot) (i : ℕ) (s : HashSlot) → get_elem? t i ≡ some s → bit (p s) ≤ tally p t
  unfolding tally
  tally-at [] i s at = cc
  tally-at (x ∷ t) zero s at =
      let same : x ≡ s = ground arith in omega (arith, ap (λ s. bit (p s)) same)
  tally-at (x ∷ t) (suc i) s at = omega (arith, tally-at t i s at)

  -- A slot that fails the test, if there are too few that pass it.
  pub tally-lt :
      (t : List HashSlot)
      → tally p t < length t
      → (i : ℕ) × (s : HashSlot) × (get_elem? t i ≡ some s) × (p s ≡ false)
  unfolding tally
  tally-lt [] h = absurd (omega arith)
  tally-lt (x ∷ t) h = elim (Bool-cases (p x)) [
    | inr fails ↦ (0, x, refl, fails)
    | inl passes ↦
        let (i, s, at, fails) = tally-lt t (omega (arith, ap bit passes)) in (suc i, s, at, fails)
  ]

  -- Two slots that pass the test are one, if there is no more than one.
  pub tally-one :
      (t : List HashSlot) (i j : ℕ) (a b : HashSlot)
      → tally p t ≤ 1
      → get_elem? t i ≡ some a
      → get_elem? t j ≡ some b
      → p a ≡ true
      → p b ≡ true
      → i ≡ j
  unfolding tally
  tally-one [] i j a b h at at' f g = cc
  tally-one (x ∷ t) zero zero a b h at at' f g = refl
  tally-one (x ∷ t) zero (suc j) a b h at at' f g =
      let same : x ≡ a = ground arith in
      absurd (omega (arith, ap (λ s. bit (p s)) same, ap bit f, ap bit g, tally-at t j b at', h))
  tally-one (x ∷ t) (suc i) zero a b h at at' f g =
      let same : x ≡ b = ground arith in
      absurd (omega (arith, ap (λ s. bit (p s)) same, ap bit f, ap bit g, tally-at t i a at, h))
  tally-one (x ∷ t) (suc i) (suc j) a b h at at' f g =
      ap suc (tally-one t i j a b (omega arith) at at' f g)

  pub tally-replicate : (n : ℕ) (s : HashSlot) → p s ≡ false → tally p (replicate n s) ≡ 0
  unfolding tally
  tally-replicate zero s f = refl
  tally-replicate (suc n) s f = omega (arith, ap bit f, tally-replicate n s f)

module _ (p q : HashSlot → Bool) (weaker : (s : HashSlot) → p s ≡ true → q s ≡ true) where
  pub tally-le : (t : List HashSlot) → tally p t ≤ tally q t
  unfolding tally
  tally-le [] = omega arith
  tally-le (s ∷ t) = ground (arith, tally-le t, weaker s)

  -- A slot that passes only the weaker test makes a difference.
  pub tally-strict :
      (t : List HashSlot) (i : ℕ) (s : HashSlot)
      → get_elem? t i ≡ some s
      → p s ≡ false
      → q s ≡ true
      → tally p t < tally q t
  unfolding tally
  tally-strict [] i s at f g = cc
  tally-strict (x ∷ t) zero s at f g =
      let same : x ≡ s = ground arith in
      omega
        (arith, tally-le t, ap (λ s. bit (p s)) same, ap (λ s. bit (q s)) same, ap bit f, ap bit g)
  tally-strict (x ∷ t) (suc i) s at f g = ground (arith, tally-strict t i s at f g, weaker x)

module _ (cmp : ℕ → ℕ → Bool) (key : ℕ) where
  pub value_of-none : (t : List HashSlot) → tally (holds cmp key) t ≡ 0 → value_of cmp key t ≡ none
  unfolding tally value_of
  value_of-none [] h = refl
  value_of-none (s ∷ t) h = ground (arith, value_of-none t)

  pub none-tally : (t : List HashSlot) → value_of cmp key t ≡ none → tally (holds cmp key) t ≡ 0
  unfolding tally value_of
  none-tally [] h = refl
  none-tally (s ∷ t) h = ground (arith, none-tally t)

  -- A key that has a value is in a slot with it.
  pub value_of-slot :
      (t : List HashSlot) (v : ℕ)
      → value_of cmp key t ≡ some v
      → (i : ℕ) × (s : HashSlot) × (get_elem? t i ≡ some s)
        × (holds cmp key s ≡ true)
        × (s.value ≡ v)
  unfolding value_of
  value_of-slot [] v h = cc
  value_of-slot (s ∷ t) v h = elim (Bool-cases (holds cmp key s)) [
    | inl here ↦ (0, s, refl, here, ground arith)
    | inr other ↦
        let (i, s, at, held, e) = value_of-slot t v (ground arith) in (suc i, s, at, held, e)
  ]

  -- The reference after a write of one slot, where no key is in two slots before or after.
  pub value_of-set :
      (t : List HashSlot) (i : ℕ) (old new : HashSlot)
      → get_elem? t i ≡ some old
      → tally (holds cmp key) t ≤ 1
      → tally (holds cmp key) (set t i new) ≤ 1
      → value_of cmp key (set t i new) ≡ (
          if holds cmp key new
          then some new.value
          else if holds cmp key old
          then none
          else value_of cmp key t)
  unfolding tally value_of
  value_of-set [] i old new at one one' = cc
  value_of-set (s ∷ t) zero old new at one one' =
      let same : s ≡ old = ground arith in ground (arith, value_of-none t, ap (holds cmp key) same)
  value_of-set (s ∷ t) (suc i) old new at one one' =
      let there = tally-at (holds cmp key) t i old at in
      let written = tally-set (holds cmp key) t i old new at in
      ground (arith, value_of-set t i old new at, there, written)
