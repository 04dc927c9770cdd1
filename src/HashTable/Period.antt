-- ===== src/HashTable/Period.antt =====
-- kernel/hash.c: the numbers i, 5 i + 1, ... that a search goes through once `perturb` is zero meet
-- every remainder modulo a power of two.
use advanced_operating_syste.Base.{
  ℕ, zero, suc, ◌+◌, ◌*◌, ◌^◌, ◌<◌, ◌/◌, ◌%◌, ◌≡◌, ◌⊎◌, inl, inr, sym, ap, subst, ◌∙◌, arith,
  Bool-cases, ==_iff, ◌==◌,
}

unfoldable pub iterate : ℕ → ℕ → ℕ
iterate zero x = x
iterate (suc n) x = iterate n (5 * x + 1)

iterate-add : (n m x : ℕ) → iterate (n + m) x ≡ iterate m (iterate n x)
unfolding iterate
iterate-add zero m x = let same : 0 + m ≡ m = omega arith in ap (λ k. iterate k x) same
iterate-add (suc n) m x =
    let shift : suc n + m ≡ suc (n + m) = omega arith in
    ap (λ k. iterate k x) shift ∙ iterate-add n m (5 * x + 1)

twice :
    (z b : ℕ)
    → z + b * (4 * z + 1) + b * (4 * (z + b * (4 * z + 1)) + 1)
      ≡ z + 2 * b * (2 * b + 1) * (4 * z + 1)
twice z b = grind arith

odd_times :
    (p c b : ℕ) → 2 * (p * (2 * c + 1)) * (2 * b + 1) ≡ 2 * p * (2 * (2 * c * b + c + b) + 1)
odd_times p c b = grind arith

-- After 2^k steps a number has changed by an odd multiple of 2^k.
odd_shift :
    (k : ℕ) → (c : ℕ) × ((z : ℕ) → iterate (2 ^ k) z ≡ z + 2 ^ k * (2 * c + 1) * (4 * z + 1))
unfolding iterate
odd_shift zero = (0, λ z. omega arith)
odd_shift (suc k) =
    let (c, h) = odd_shift k in
    let p = 2 ^ k in
    let b = p * (2 * c + 1) in
    let power : 2 ^ suc k ≡ 2 * 2 ^ k = omega arith in
    let double : 2 ^ suc k ≡ 2 ^ k + 2 ^ k = omega arith in
    (
      2 * c * b + c + b,
      λ z.
          ap (λ n. iterate n z) double
          ∙ iterate-add p p z
          ∙ ap (iterate p) (h z)
          ∙ h (z + b * (4 * z + 1))
          ∙ twice z b
          ∙ ap (λ t. z + t * (4 * z + 1)) (odd_times p c b)
          ∙ ap (λ q. z + q * (2 * (2 * c * b + c + b) + 1) * (4 * z + 1)) (sym power),
    )

-- Two numbers with the same remainder modulo `m`.
abbrev pub Congruent : ℕ → ℕ → ℕ → Type 0
Congruent m x y = (a : ℕ) × (b : ℕ) × (x + a * m ≡ y + b * m)

even_or_odd : (n : ℕ) → (h : ℕ) × ((n ≡ 2 * h) ⊎ (n ≡ 2 * h + 1))
even_or_odd n = (
  n / 2,
  elim (Bool-cases (n % 2 == 0)) [
    | inl e ↦ let f = (==_iff (n % 2) 0).0 e in inl (omega arith)
    | inr e ↦ inr (ground arith)
  ],
)

even_times : (c p : ℕ) → 2 * c * p ≡ c * (2 * p)
even_times c p = grind arith

odd_times_p : (c p : ℕ) → (2 * c + 1) * p ≡ c * (2 * p) + p
odd_times_p c p = grind arith

module _ (p x y a b : ℕ) (e : x + a * p ≡ y + b * p) where
  halved_even : (c d : ℕ) → a ≡ 2 * c → b ≡ 2 * d → Congruent (2 * p) x y
  halved_even c d f g =
      (c, d, omega (arith, ap (λ t. t * p) f, ap (λ t. t * p) g, even_times c p, even_times d p))

  halved_odd : (c d : ℕ) → a ≡ 2 * c + 1 → b ≡ 2 * d + 1 → Congruent (2 * p) x y
  halved_odd c d f g =
      (c, d, omega (arith, ap (λ t. t * p) f, ap (λ t. t * p) g, odd_times_p c p, odd_times_p d p))

odd_product : (p c w : ℕ) → p * (2 * c + 1) * (4 * w + 1) ≡ (2 * (4 * c * w + c + 2 * w) + 1) * p
odd_product p c w = grind arith

odd_sum : (b d p : ℕ) → (b + (2 * d + 1)) * p ≡ b * p + (2 * d + 1) * p
odd_sum b d p = grind arith

-- A number with the right remainder modulo p has it modulo 2p too, or gets it from an odd multiple
-- of p.
halve :
    (p w y : ℕ)
    → Congruent p w y
    → Congruent (2 * p) w y ⊎ ((d : ℕ) → Congruent (2 * p) (w + (2 * d + 1) * p) y)
halve p w y (a, b, e) =
    let (c, ea) = even_or_odd a in
    let (d, eb) = even_or_odd b in
    elim ea [
      | inl f ↦ elim eb [
        | inl g ↦ inl (halved_even p w y a b e c d f g)
        | inr g ↦ inr (λ t.
            halved_even p (w + (2 * t + 1) * p) y a (b + (2 * t + 1))
              (omega (arith, e, odd_sum b t p)) c (d + t + 1) f (omega arith))
      ]
      | inr f ↦ elim eb [
        | inl g ↦ inr (λ t.
            halved_odd p (w + (2 * t + 1) * p) y a (b + (2 * t + 1))
              (omega (arith, e, odd_sum b t p)) c (d + t) f (omega arith))
        | inr g ↦ inl (halved_odd p w y a b e c d f g)
      ]
    ]

-- From every number, each remainder modulo 2^k is met in fewer than 2^k steps.
pub meets : (k x y : ℕ) → (n : ℕ) × (n < 2 ^ k) × Congruent (2 ^ k) (iterate n x) y
unfolding iterate
meets zero x y = (0, omega arith, (y, x, omega arith))
meets (suc k) x y =
    let (n, below, near) = meets k x y in
    let p = 2 ^ k in
    let w = iterate n x in
    let power : 2 * 2 ^ k ≡ 2 ^ suc k = omega arith in
    let (c, shift) = odd_shift k in
    let d = 4 * c * w + c + 2 * w in
    let later : iterate (n + p) x ≡ w + (2 * d + 1) * p =
      iterate-add n p x ∙ shift w ∙ ap (λ t. w + t) (odd_product p c w) in
    elim (halve p w y near) [
      | inl now ↦ (n, omega arith, subst (λ m. Congruent m w y) power now)
      | inr then_ ↦ (
        n + p,
        omega arith,
        subst (λ m. Congruent m (iterate (n + p) x) y) power
            (subst (λ v. Congruent (2 * p) v y) (sym later) (then_ d)),
      )
    ]
