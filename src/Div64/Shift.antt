-- ===== src/Div64/Shift.antt =====
-- shared/div64.c: the shifts, and how far they move the divisor.
use native.Mathlib.Nat.{
  mod-eq_of_lt, div-div-eq-div-mul, mul_comm, div-lt_iff_lt-mul, le-div_iff_mul-le,
}
use advanced_operating_syste.Base.{
  ℕ, zero, suc, ◌+◌, ◌*◌, ◌/◌, ◌%◌, ◌^◌, ◌≤◌, ◌<◌, ◌≡◌, ◌⊎◌, inl, inr, refl, ◌∙◌, sym, ap, arith,
  ltb, ◌==◌, false, Bool-cases,
}
use advanced_operating_syste.Base.Bits.{pow_pos, pow-suc}
use advanced_operating_syste.Div64.{highest_bit, hard_bsr, Pair, rshift64, rshift64_32}

-- The highest bit of a number that is not zero.
highest_bit-bounds :
    (bits n : ℕ)
    → 0 < n
    → n < 2 ^ bits
    → (highest_bit bits n < bits) × (2 ^ highest_bit bits n ≤ n) × (n < 2 * 2 ^ highest_bit bits n)
unfolding highest_bit
highest_bit-bounds zero n h k = absurd (omega arith)
highest_bit-bounds (suc bits) n h k = elim (Bool-cases (ltb n 2)) [
  | inl lt ↦ rw lt (omega arith, omega arith, ground arith)
  | inr ge ↦
      let double = pow-suc (highest_bit bits (n / 2)) in
      let (few, low, high) = highest_bit-bounds bits (n / 2) (ground arith) (omega arith) in
      rw ge (omega arith, omega (arith, double), omega (arith, double))
]

-- The number in a pair of registers.
abbrev pub value : Pair → ℕ
value (x1, x0) = x1 * 2 ^ 32 + x0

swapped : (x n : ℕ) → x / 2 ^ 32 / 2 ^ n ≡ x / 2 ^ n / 2 ^ 32
swapped x n =
    div-div-eq-div-mul x (2 ^ 32) (2 ^ n)
    ∙ ap (λ d. x / d) (mul_comm (2 ^ 32) (2 ^ n))
    ∙ sym (div-div-eq-div-mul x (2 ^ n) (2 ^ 32))

-- A counter below 32 is what it is modulo 32, and has bit 5 clear.
small : (n : ℕ) → n < 32 → (n % 32 ≡ n) × ((n / 32 % 2 == 1) ≡ false)
small n h = (omega arith, ground arith)

≤-cases : (a b : ℕ) → a ≤ b → (a < b) ⊎ (a ≡ b)
≤-cases a b h = omega arith

-- A shift by up to 32 places divides.
pub rshift64-divides :
    (x n : ℕ)
    → x < 2 ^ 64
    → n ≤ 32
    → rshift64 (x / 2 ^ 32, x % 2 ^ 32) n ≡ (x / 2 ^ n / 2 ^ 32, x / 2 ^ n % 2 ^ 32)
unfolding rshift64
rshift64-divides x n k l = elim (≤-cases n 32 l) [
  | inl lt ↦
      let (few, clear) = small n lt in
      let whole : x / 2 ^ 32 * 2 ^ 32 + x % 2 ^ 32 ≡ x = omega arith in
      rw (few, clear, whole, swapped x n) refl
  | inr full ↦
      let none : x / 2 ^ 32 / 2 ^ 32 ≡ 0 = omega arith in
      let all : x / 2 ^ 32 % 2 ^ 32 ≡ x / 2 ^ 32 = omega arith in
      rw (full, none, all) (ap (λ q. (0, q)) (omega arith))
]

pub rshift64_32-divides :
    (y n : ℕ)
    → y < 2 ^ 64
    → n ≤ 32
    → y / 2 ^ n < 2 ^ 32
    → rshift64_32 (y / 2 ^ 32, y % 2 ^ 32) n ≡ y / 2 ^ n
unfolding rshift64_32
rshift64_32-divides y n h l b = elim (≤-cases n 32 l) [
  | inl lt ↦
      let (few, clear) = small n lt in
      let whole : y / 2 ^ 32 * 2 ^ 32 + y % 2 ^ 32 ≡ y = omega arith in
      rw (few, clear, whole) (mod-eq_of_lt b)
  | inr full ↦ rw full refl
]

-- The divisor, shifted until it has 32 bits, of which the highest is set.
abbrev pub counter : ℕ → ℕ
counter y = suc (hard_bsr (y / 2 ^ 32))

pub shifted_divisor :
    (y : ℕ)
    → 2 ^ 32 ≤ y
    → y < 2 ^ 64
    → (rshift64_32 (y / 2 ^ 32, y % 2 ^ 32) (counter y) ≡ y / 2 ^ counter y)
      × (2 ^ 31 ≤ y / 2 ^ counter y)
      × (y / 2 ^ counter y < 2 ^ 32)
      × (counter y ≤ 32)
unfolding hard_bsr
shifted_divisor y big h =
    let bit = highest_bit 32 (y / 2 ^ 32) in
    let (few, low, high) = highest_bit-bounds 32 (y / 2 ^ 32) (omega arith) (omega arith) in
    let positive = pow_pos (suc bit) in
    let double = pow-suc bit in
    let above : 2 ^ 31 ≤ y / 2 ^ suc bit =
      (le-div_iff_mul-le positive).1 (omega (arith, double, low)) in
    let below : y / 2 ^ suc bit < 2 ^ 32 =
      (div-lt_iff_lt-mul positive).1 (omega (arith, double, high)) in
    (rshift64_32-divides y (suc bit) h (omega arith) below, above, below, omega arith)
