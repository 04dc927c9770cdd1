-- ===== src/Div64/Divides.antt =====
-- shared/div64.c: `do_div64` divides.
use native.Mathlib.Nat.{mod-add-div', mod-lt, add-mul-div_right, add-mul-mod_self_right}
use advanced_operating_syste.Base.{
  ℕ, ◌+◌, ◌-◌, ◌*◌, ◌/◌, ◌%◌, ◌^◌, ◌≤◌, ◌<◌, ◌≡◌, inl, inr, refl, ◌∙◌, sym, ap, arith, true, false,
  some, ltb, ◌==◌, Bool-cases,
}
use advanced_operating_syste.Div64.{
  div64_32, returns, divide_error, after, divide_wide, hard_bsr, highest_bit, divide_short,
  divide_long, do_div64, quotient?, rem?, div64, mod64,
}
use advanced_operating_syste.Div64.Shift.{counter}
use advanced_operating_syste.Div64.Quotient.{div64_32-divides, Fits, wide}

-- A multiple of the divisor taken off.
quotient : (x d q y : ℕ) → 0 < y → x ≡ d + q * y → q + d / y ≡ x / y
quotient x d q y p back =
    let sum : x / y ≡ d / y + q = ap (λ n. n / y) back ∙ add-mul-div_right d q p in
    omega (arith, sum)

rem : (x d q y : ℕ) → x ≡ d + q * y → d % y ≡ x % y
rem x d q y back = sym (ap (λ n. n % y) back ∙ add-mul-mod_self_right d q y)

-- A divisor of 32 bits.
narrow :
    (x y : ℕ)
    → x < 2 ^ 64
    → 0 < y
    → y < 2 ^ 32
    → (x / 2 ^ 32 < y → divide_short x y ≡ returns (x / y) (x % y))
      × (divide_long x y ≡ returns (x / y) (x % y))
unfolding divide_short divide_long
narrow x y h p k =
    let whole : x / 2 ^ 32 * 2 ^ 32 + x % 2 ^ 32 ≡ x = omega arith in
    let x1 = x / 2 ^ 32 in
    let digit = x1 % y * 2 ^ 32 + x % 2 ^ 32 in
    let shift : x1 / y * 2 ^ 32 * y ≡ x1 / y * y * 2 ^ 32 = grind arith in
    let top : div64_32 0 x1 y ≡ some (x1 % y, x1 / y) =
      div64_32-divides 0 x1 y p
      ∙ ap (λ n. some (n % y, n / y)) {x = 0 * 2 ^ 32 + x1} {y = x1} (omega arith) in
    let back : x ≡ digit + x1 / y * 2 ^ 32 * y = omega (arith, shift, mod-add-div' x1 y) in
    (
      λ few.
          ap (λ o. after o (λ rem q. returns q rem)) (div64_32-divides x1 (x % 2 ^ 32) y few)
          ∙ ap (λ n. returns (n / y) (n % y)) whole,
      ap
            (λ o. after o (λ x2 x1.
              after (div64_32 x2 (x % 2 ^ 32) y) (λ rem x0. returns (x1 * 2 ^ 32 + x0) rem)))
            top
          ∙ ap (λ o. after o (λ rem x0. returns (x1 / y * 2 ^ 32 + x0) rem))
              (div64_32-divides (x1 % y) (x % 2 ^ 32) y (mod-lt x1 p))
          ∙ ap (λ q. returns q (digit % y)) (quotient x digit (x1 / y * 2 ^ 32) y p back)
          ∙ ap (returns (x / y)) (rem x digit (x1 / y * 2 ^ 32) y back),
    )

-- Which branch is taken.
take_wide : (x y : ℕ) → 2 ^ 32 ≤ y → do_div64 x y ≡ divide_wide x y
unfolding do_div64
take_wide x y big = let top : (y / 2 ^ 32 == 0) ≡ false = ground arith in rw top refl

take_narrow : (x y : ℕ) → x < 2 ^ 64 → 0 < y → y < 2 ^ 32 → do_div64 x y ≡ returns (x / y) (x % y)
unfolding do_div64
take_narrow x y h p small =
    let top : (y / 2 ^ 32 == 0) ≡ true = ground arith in
    let low : y % 2 ^ 32 ≡ y = omega arith in
    let some : (y == 0) ≡ false = ground arith in
    let (short, long) = narrow x y h p small in
    elim (Bool-cases (ltb (x / 2 ^ 32) y)) [
      | inl lt ↦ rw (top, low, lt) (short (ground arith))
      | inr ge ↦ rw (top, low, ge, some) long
    ]

take_zero : (x : ℕ) → do_div64 x 0 ≡ returns 0 x
unfolding do_div64
take_zero x = ground arith

pub narrow_leading : (y : ℕ) → y < 2 ^ 32 → y / 2 ^ counter y < 2 ^ 31
unfolding hard_bsr highest_bit
narrow_leading y small = let top : y / 2 ^ 32 ≡ 0 = omega arith in rw top (omega arith)

-- `do_div64` gives the quotient and the remainder of two 64-bit numbers, and 0 and the dividend for
-- the divisor 0. Only if the 32 highest bits of a divisor above 2^32 are all set it does not
-- return: it divides by their number plus one, which wraps around to 0.
pub do_div64-Divides :
    (x y : ℕ)
    → x < 2 ^ 64
    → y < 2 ^ 64
    → (y ≡ 0 → do_div64 x y ≡ returns 0 x)
      × (0 < y → Fits y → do_div64 x y ≡ returns (x / y) (x % y))
      × (y / 2 ^ counter y ≡ 2 ^ 32 - 1 → do_div64 x y ≡ divide_error)
unfolding do_div64
do_div64-Divides x y h k = elim (Bool-cases (ltb y (2 ^ 32))) [
  | inl lt ↦
      let small : y < 2 ^ 32 = ground arith in
      let halves = narrow_leading y small in
      (
        λ e. rw e (take_zero x),
        λ p fits. take_narrow x y h p small,
        λ full. absurd (omega (arith, full, halves)),
      )
  | inr ge ↦
      let big : 2 ^ 32 ≤ y = ground arith in
      let (divides, error) = wide x y h k big in
      (
        λ e. absurd (omega arith),
        λ p fits. take_wide x y big ∙ divides fits,
        λ full. take_wide x y big ∙ error full,
      )
]

-- What `div64` and `mod64` give makes up the dividend, and the remainder is below the divisor.
pub div64-mod64 :
    (x y : ℕ)
    → x < 2 ^ 64
    → y < 2 ^ 64
    → 0 < y
    → Fits y
    → (q r : ℕ) × (div64 x y ≡ some q) × (mod64 x y ≡ some r) × (q * y + r ≡ x) × (r < y)
unfolding div64 mod64
div64-mod64 x y h k p fits =
    let run = (do_div64-Divides x y h k).1 p fits in
    (x / y, x % y, ap quotient? run, ap rem? run, omega (arith, mod-add-div' x y), mod-lt x p)
