-- ===== src/HashTable/Route.antt =====
-- kernel/hash.c: the slots that a search visits, whatever is in them.
use Prim.Native.Nat.{bit_and}
use native.Mathlib.Nat.{mod-lt, mod-add-div'}
use advanced_operating_syste.Base.{
  ℕ, zero, suc, ◌+◌, ◌-◌, ◌*◌, ◌/◌, ◌%◌, ◌^◌, ◌<◌, ◌≡◌, inl, inr, refl, ◌∙◌, sym, ap, subst, arith,
  leb, Bool-cases,
}
use advanced_operating_syste.Base.Bits.{bit_and-mask, pow_pos, pow-add}
use advanced_operating_syste.HashTable.Period.{iterate, Congruent, meets}

-- The index after `n` rounds of the loop.
unfoldable pub index_at : ℕ → ℕ → ℕ → ℕ
index_at zero index perturb = index
index_at (suc n) index perturb = index_at n ((5 * index + perturb + 1) % 2 ^ 32) (perturb / 2 ^ 5)

mul_split : (a b m : ℕ) → (a + b) * m ≡ a * m + b * m
mul_split a b m = grind arith

mul_assoc : (a b m : ℕ) → a * (b * m) ≡ a * b * m
mul_assoc a b m = grind arith

-- What is congruent to a slot's index is masked to it.
pub masked : (k x e : ℕ) → e < 2 ^ k → Congruent (2 ^ k) x e → bit_and x (2 ^ k - 1) ≡ e
masked k x e below (a, b, same) = elim (Bool-cases (leb a b)) [
  | inl le ↦
      let m = 2 ^ k in
      let d = b - a in
      let sum : b ≡ a + d = ground arith in
      let whole : x ≡ d * m + e = omega (arith, same, ap (λ t. t * m) sum, mul_split a d m) in
      ap (λ x. bit_and x (m - 1)) whole ∙ bit_and-mask k d e below
  | inr gt ↦
      let m = 2 ^ k in
      let d = a - b - 1 in
      let sum : a ≡ b + 1 + d = ground arith in
      absurd
        (omega (arith, same, below, ap (λ t. t * m) sum, mul_split (b + 1) d m, mul_split b 1 m))
]

module _ (m : ℕ) where
  Congruent-step : (x y : ℕ) → Congruent m x y → Congruent m (5 * x + 1) (5 * y + 1)
  Congruent-step x y (a, b, e) =
      (5 * a, 5 * b, omega (arith, e, sym (mul_assoc 5 a m), sym (mul_assoc 5 b m)))

  Congruent-trans : (x y z : ℕ) → Congruent m x y → Congruent m y z → Congruent m x z
  Congruent-trans x y z (a, b, e) (c, d, f) =
      (a + c, b + d, omega (arith, e, f, mul_split a c m, mul_split b d m))

-- The wrap-around at 2^32 keeps the remainders modulo 2^k.
wrapped : (k j x : ℕ) → k + j ≡ 32 → Congruent (2 ^ k) (x % 2 ^ 32) x
wrapped k j x e =
    let whole : 2 ^ 32 ≡ 2 ^ j * 2 ^ k = ap (λ n. 2 ^ n) (sym e) ∙ pow-add k j in
    let q = x / 2 ^ 32 in
    let split : x ≡ q * 2 ^ 32 + x % 2 ^ 32 = omega arith in
    let times : q * 2 ^ 32 ≡ q * 2 ^ j * 2 ^ k =
      ap (λ t. q * t) whole ∙ mul_assoc q (2 ^ j) (2 ^ k) in
    (q * 2 ^ j, 0, omega (arith, split, times))

-- While `perturb` is zero the indices are those of `iterate`, up to multiples of 2^k.
index_at-iterate :
    (k j : ℕ)
    → k + j ≡ 32
    → (n index x : ℕ) → Congruent (2 ^ k) index x
    → Congruent (2 ^ k) (index_at n index 0) (iterate n x)
unfolding index_at iterate
index_at-iterate k j e zero index x h = h
index_at-iterate k j e (suc n) index x h =
    let next = 5 * index + 0 + 1 in
    let same : next ≡ 5 * index + 1 = omega arith in
    index_at-iterate k j e n (next % 2 ^ 32) (5 * x + 1) (
      Congruent-trans (2 ^ k) (next % 2 ^ 32) next (5 * x + 1) (wrapped k j next e) (
        subst (λ y. Congruent (2 ^ k) y (5 * x + 1)) (sym same) (Congruent-step (2 ^ k) index x h)))

-- The perturbation is zero after seven rounds.
settled :
    (index perturb : ℕ)
    → perturb < 2 ^ 32
    → (later : ℕ) × ((n : ℕ)
        → index_at (suc (suc (suc (suc (suc (suc (suc n))))))) index perturb ≡ index_at n later 0)
unfolding index_at
settled index perturb h =
    let gone : perturb / 2 ^ 5 / 2 ^ 5 / 2 ^ 5 / 2 ^ 5 / 2 ^ 5 / 2 ^ 5 / 2 ^ 5 ≡ 0 = omega arith in
    (_, λ n. ap (index_at n _) gone)

-- A search with a hash code of 32 bits visits every slot of a table of 2^k slots.
pub visits :
    (k j index perturb e : ℕ)
    → k + j ≡ 32
    → perturb < 2 ^ 32
    → e < 2 ^ k
    → (n : ℕ) × (n < 7 + 2 ^ k) × (bit_and (index_at n index perturb) (2 ^ k - 1) ≡ e)
visits k j index perturb e width h below =
    let (later, after) = settled index perturb h in
    let (n, few, near) = meets k later e in
    let reached = index_at-iterate k j width n later later (0, 0, refl) in
    (
      suc (suc (suc (suc (suc (suc (suc n)))))),
      omega arith,
      ap (λ i. bit_and i (2 ^ k - 1)) (after n)
          ∙ masked k (index_at n later 0) e below
              (Congruent-trans (2 ^ k) (index_at n later 0) (iterate n later) e reached near),
    )

-- A masked index is in the table, and masking it again changes nothing.
pub masked_index :
    (k x : ℕ)
    → (bit_and x (2 ^ k - 1) < 2 ^ k)
      × (bit_and (bit_and x (2 ^ k - 1)) (2 ^ k - 1) ≡ bit_and x (2 ^ k - 1))
masked_index k x =
    let m = 2 ^ k in
    let r = x % m in
    let below : r < m = mod-lt x (pow_pos k) in
    let whole : x ≡ r + x / m * m = sym (mod-add-div' x m) in
    let low : bit_and x (m - 1) ≡ r = masked k x r below (0, x / m, omega (arith, whole)) in
    let again : bit_and r (m - 1) ≡ r = masked k r r below (0, 0, refl) in
    (omega (arith, low, below), rw low again)
