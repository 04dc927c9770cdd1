-- ===== src/Div64/Quotient.antt =====
-- shared/div64.c: the branch for a divisor above 32 bits.
use native.Mathlib.Nat.{
  add-mul-div_right, add-mul-mod_self_right, div-lt_iff_lt-mul, div-mul-le_self, lt-div-mul-add,
  div-eq_of_lt, mod-eq_of_lt,
}
use advanced_operating_syste.Base.{
  ℕ, zero, suc, ◌+◌, ◌-◌, ◌*◌, ◌/◌, ◌%◌, ◌^◌, ◌≤◌, ◌<◌, ◌≡◌, ◌≢◌, inl, inr, ◌∙◌, ap, arith, some,
  leb, Bool-cases,
}
use advanced_operating_syste.Base.Bits.{pow_pos, pow-suc}
use advanced_operating_syste.Div64.{
  div64_32, returns, divide_error, subtract, rounds, sub_64, after, divide_by_top, divide_wide,
  rshift64, hard_bsr,
}
use advanced_operating_syste.Div64.Shift.{counter, shifted_divisor, rshift64-divides}
use advanced_operating_syste.Div64.Estimate.{estimate-low, estimate-high}

-- `divl` on a divisor above the high register.
pub div64_32-divides :
    (x1 x0 y : ℕ)
    → x1 < y
    → div64_32 x1 x0 y ≡ some ((x1 * 2 ^ 32 + x0) % y, (x1 * 2 ^ 32 + x0) / y)
unfolding div64_32
div64_32-divides x1 x0 y h = ground arith

-- The loop ends before its fuel does, with the quotient and the remainder.
subtract-divides :
    (fuel y x0 r : ℕ)
    → 0 < y
    → r < y * fuel
    → x0 + r / y < 2 ^ 32
    → subtract fuel y x0 r ≡ returns (x0 + r / y) (r % y)
unfolding subtract
subtract-divides zero y x0 r p h k = absurd (omega arith)
subtract-divides (suc fuel) y x0 r p h k = elim (Bool-cases (leb y r)) [
  | inl le ↦
      let back : r ≡ r - y + 1 * y = ground arith in
      let more : r / y ≡ (r - y) / y + 1 = ap (λ n. n / y) back ∙ add-mul-div_right (r - y) 1 p in
      let same : r % y ≡ (r - y) % y = ap (λ n. n % y) back ∙ add-mul-mod_self_right (r - y) 1 y in
      let product : y * suc fuel ≡ y + y * fuel = grind arith in
      let next : (x0 + 1) % 2 ^ 32 ≡ x0 + 1 = omega arith in
      rw (le, next, more, same)
        (subtract-divides fuel y (x0 + 1) (r - y) p (ground (arith, product)) (omega (arith, more))
          ∙ ap (λ q. returns q ((r - y) % y)) (omega arith))
  | inr lt ↦
      let small : r < y = ground arith in
      rw (lt, div-eq_of_lt small, mod-eq_of_lt small) (ap (λ q. returns q r) (omega arith))
]

-- The divisor's 32 highest bits are not all set: y0 + 1 does not wrap around.
abbrev pub Fits : ℕ → Type 0
Fits y = y / 2 ^ counter y ≢ 2 ^ 32 - 1

-- A quotient that is at most two too small is corrected by the loop.
correction :
    (x y q : ℕ)
    → 2 ^ 32 ≤ y
    → x < 2 ^ 64
    → y * q ≤ x
    → x < y * (q + 3)
    → subtract rounds y q (sub_64 x (y * q)) ≡ returns (x / y) (x % y)
correction x y q big h low high =
    let p : 0 < y = omega arith in
    let r = x - y * q in
    let wrapped : sub_64 x (y * q) ≡ r = omega arith in
    let swapped : q * y ≡ y * q = grind arith in
    let back : x ≡ r + q * y = omega (arith, swapped) in
    let quotient : x / y ≡ r / y + q = ap (λ n. n / y) back ∙ add-mul-div_right r q p in
    let rem : x % y ≡ r % y = ap (λ n. n % y) back ∙ add-mul-mod_self_right r q y in
    let spread : y * (q + 3) ≡ y * q + y * 3 = grind arith in
    let bound : x / y < 2 ^ 32 = (div-lt_iff_lt-mul p).1 (omega arith) in
    rw (wrapped, quotient, rem)
      (subtract-divides rounds y q r p (omega (arith, spread)) (omega (arith, quotient, bound))
        ∙ ap (λ n. returns n (r % y)) (omega arith))

next : (a m : ℕ) → 0 < m → a < (a / m + 1) * m
next a m p =
    let product : (a / m + 1) * m ≡ a / m * m + m = grind arith in
    omega (arith, product, lt-div-mul-add p)

-- The division by the highest bits, for numbers shifted by `l` places.
module _ (x y l : ℕ) (h : x < 2 ^ 64) (big : 2 ^ 32 ≤ y) (more : 2 ≤ 2 ^ l)
    (above : 2 ^ 31 ≤ y / 2 ^ l) where
  abbrev X : ℕ
  X = x / 2 ^ l

  abbrev Y : ℕ
  Y = y / 2 ^ l

  low : X < 2 ^ 63
  low = (div-lt_iff_lt-mul {k = 2 ^ l} (omega arith)).1 (omega arith)

  few : X / (Y + 1) < 2 ^ 32
  few = (div-lt_iff_lt-mul {k = Y + 1} (omega arith)).1 (omega (arith, low))

  divide_by_top-divides :
      Y + 1 < 2 ^ 32 → divide_by_top x y (X / 2 ^ 32, X % 2 ^ 32) Y ≡ returns (x / y) (x % y)
  unfolding divide_by_top
  divide_by_top-divides below =
      let top = X / 2 ^ 32 in
      let rest = X % 2 ^ 32 in
      let whole : top * 2 ^ 32 + rest ≡ X = omega arith in
      let wraps : (Y + 1) % 2 ^ 32 ≡ Y + 1 = omega (arith, below) in
      let k = λ (rem quotient : ℕ). subtract rounds y quotient (sub_64 x (y * quotient)) in
      let q = X / (Y + 1) in
      ap (λ d. after (div64_32 top rest d) k) wraps
      ∙ ap (λ o. after o k) (div64_32-divides top rest (Y + 1) (omega (arith, low)))
      ∙ ap (λ n. k (n % (Y + 1)) (n / (Y + 1))) whole
      ∙ correction x y q big h
          (estimate-low x y (2 ^ l) X Y q (div-mul-le_self x (2 ^ l)) (next y (2 ^ l) (omega arith))
            (div-mul-le_self X (Y + 1)))
          (estimate-high x y (2 ^ l) X Y q (next x (2 ^ l) (omega arith))
            (div-mul-le_self y (2 ^ l)) (next X (Y + 1) (omega arith)) (omega (arith, few)))

  divide_by_top-error : Y + 1 ≡ 2 ^ 32 → divide_by_top x y (X / 2 ^ 32, X % 2 ^ 32) Y ≡ divide_error
  unfolding divide_by_top div64_32
  divide_by_top-error full =
      ap (λ y0. divide_by_top x y (X / 2 ^ 32, X % 2 ^ 32) y0) {x = Y} {y = 2 ^ 32 - 1}
        (omega (arith, full))

-- The branch for a divisor above 32 bits, whichever way it goes.
pub wide :
    (x y : ℕ)
    → x < 2 ^ 64
    → y < 2 ^ 64
    → 2 ^ 32 ≤ y
    → (Fits y → divide_wide x y ≡ returns (x / y) (x % y))
      × (y / 2 ^ counter y ≡ 2 ^ 32 - 1 → divide_wide x y ≡ divide_error)
unfolding divide_wide
wide x y h k big =
    let l = counter y in
    let (divisor, above, below, few) = shifted_divisor y big k in
    let more : 2 ≤ 2 ^ l =
      omega (arith, pow_pos (hard_bsr (y / 2 ^ 32)), pow-suc (hard_bsr (y / 2 ^ 32))) in
    let run = ap (divide_by_top x y) (rshift64-divides x l h few) in
    let start =
      ap (divide_by_top x y (rshift64 (x / 2 ^ 32, x % 2 ^ 32) l)) divisor
      ∙ ap (λ p. divide_by_top x y p (y / 2 ^ l)) (rshift64-divides x l h few) in
    (
      λ fits. start ∙ divide_by_top-divides x y l h big more above (omega (arith, fits, below)),
      λ full. start ∙ divide_by_top-error x y l h big more above (omega (arith, full)),
    )
