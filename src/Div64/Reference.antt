-- ===== src/Div64/Reference.antt =====
-- shared/div64.c: `do_div64` against a division by quotient and remainder.
use native.Mathlib.Nat.{div-div-eq-div-mul, div-le_self, mul_comm}
use advanced_operating_syste.Base.{
  ℕ, zero, suc, ◌+◌, ◌-◌, ◌/◌, ◌%◌, ◌^◌, ◌≤◌, ◌<◌, ◌≡◌, ◌≢◌, inl, inr, refl, ◌∙◌, sym, ap, subst,
  Bool, true, false, ◌||◌, arith, ◌==◌, ltb, if◌then◌else◌, Bool-cases, ==_iff,
}
use advanced_operating_syste.Base.Bits.{pow-suc, pow-add}
use advanced_operating_syste.Div64.{Outcome, returns, divide_error, do_div64}
use advanced_operating_syste.Div64.Shift.{counter, shifted_divisor}
use advanced_operating_syste.Div64.Divides.{narrow_leading, do_div64-Divides}

-- Above some of its `n` lowest bits, but not below, the number has 32 bits, all set.
abbrev pub is_full : ℕ → ℕ → Bool
is_full zero y = false
is_full (suc n) y = (y / 2 ^ suc n == 2 ^ 32 - 1) || is_full n y

-- The reference: the divisor 0 gives back the dividend, and a divisor whose 32 highest bits, from the first that is
-- set on, are all set, and that has more than 32 bits, is an error.
abbrev pub divided : ℕ → ℕ → Outcome
divided x y =
    if y == 0 then returns 0 x else if is_full 32 y then divide_error else returns (x / y) (x % y)

full-at : (n y : ℕ) → is_full n y ≡ true → (l : ℕ) × (0 < l) × (l ≤ n) × (y / 2 ^ l ≡ 2 ^ 32 - 1)
full-at zero y h = cc
full-at (suc n) y h = elim (Bool-cases (y / 2 ^ suc n == 2 ^ 32 - 1)) [
  | inl e ↦ (suc n, omega arith, omega arith, (==_iff (y / 2 ^ suc n) (2 ^ 32 - 1)).0 e)
  | inr e ↦
      let (l, positive, few, full) = full-at n y (rw e at h) in (l, positive, omega arith, full)
]

at-full : (n y l : ℕ) → 0 < l → l ≤ n → y / 2 ^ l ≡ 2 ^ 32 - 1 → is_full n y ≡ true
at-full zero y l h k e = absurd (omega arith)
at-full (suc n) y l h k e = elim (Bool-cases (l == suc n)) [
  | inl same ↦
      let here : y / 2 ^ suc n ≡ 2 ^ 32 - 1 =
        subst (λ m. y / 2 ^ m ≡ 2 ^ 32 - 1) ((==_iff l (suc n)).0 same) e in
      rw ((==_iff (y / 2 ^ suc n) (2 ^ 32 - 1)).1 here) refl
  | inr other ↦ ground (arith, at-full n y l h (ground arith) e)
]

-- One more shift leaves a bit less.
shift_less : (y l d : ℕ) → y / 2 ^ l < 2 ^ 32 → y / 2 ^ (l + suc d) < 2 ^ 31
shift_less y l d h =
    let a = y / 2 ^ l in
    let split : y / 2 ^ (l + suc d) ≡ a / 2 ^ suc d =
      ap (λ p. y / p) (pow-add l (suc d) ∙ mul_comm (2 ^ suc d) (2 ^ l))
      ∙ sym (div-div-eq-div-mul y (2 ^ l) (2 ^ suc d)) in
    let half : a / 2 ^ suc d ≡ a / 2 / 2 ^ d =
      ap (λ p. a / p) (pow-suc d) ∙ sym (div-div-eq-div-mul a 2 (2 ^ d)) in
    omega (arith, split, half, div-le_self (a / 2) (2 ^ d))

-- A shift that leaves 32 bits, the highest set, is the only one.
only_shift : (y l c : ℕ) → y / 2 ^ c < 2 ^ 32 → 2 ^ 31 ≤ y / 2 ^ c → y / 2 ^ l ≡ 2 ^ 32 - 1 → l ≡ c
only_shift y l c low high full = elim (Bool-cases (l == c)) [
  | inl same ↦ (==_iff l c).0 same
  | inr other ↦ elim (Bool-cases (ltb l c)) [
    | inl less ↦
        let gap : l + suc (c - l - 1) ≡ c = ground arith in
        let small = shift_less y l (c - l - 1) (omega (arith, full)) in
        absurd (omega (arith, high, subst (λ m. y / 2 ^ m < 2 ^ 31) gap small))
    | inr more ↦
        let gap : c + suc (l - c - 1) ≡ l = ground arith in
        let small = shift_less y c (l - c - 1) low in
        absurd (omega (arith, full, subst (λ m. y / 2 ^ m < 2 ^ 31) gap small))
  ]
]

narrow-full : (y : ℕ) → y < 2 ^ 32 → is_full 32 y ≡ false
narrow-full y small = elim (Bool-cases (is_full 32 y)) [
  | inr clear ↦ clear
  | inl set ↦
      let (l, positive, few, full) = full-at 32 y set in
      let gap : 0 + suc (l - 1) ≡ l = omega arith in
      let less = shift_less y 0 (l - 1) (omega arith) in
      absurd (omega (arith, full, subst (λ m. y / 2 ^ m < 2 ^ 31) gap less))
]

wide-full :
    (y : ℕ) → 2 ^ 32 ≤ y → y < 2 ^ 64 → (y / 2 ^ counter y ≢ 2 ^ 32 - 1) → is_full 32 y ≡ false
wide-full y big h fits = elim (Bool-cases (is_full 32 y)) [
  | inr clear ↦ clear
  | inl set ↦
      let (l, positive, few, full) = full-at 32 y set in
      let (_, high, low, _) = shifted_divisor y big h in
      let same = only_shift y l (counter y) low high full in
      absurd (fits (subst (λ m. y / 2 ^ m ≡ 2 ^ 32 - 1) same full))
]

-- `do_div64` gives what the reference gives for any two 64-bit numbers: the quotient and the remainder; 0 and
-- the dividend for the divisor 0; and the processor's error for a divisor above 32 bits whose 32 highest bits are
-- all set.
pub do_div64-divided : (x y : ℕ) → x < 2 ^ 64 → y < 2 ^ 64 → do_div64 x y ≡ divided x y
do_div64-divided x y h k =
    let (zero_divisor, divides, error) = do_div64-Divides x y h k in
    elim (Bool-cases (y == 0)) [
      | inl e ↦ zero_divisor ((==_iff y 0).0 e) ∙ rw e refl
      | inr positive ↦ elim (Bool-cases (ltb y (2 ^ 32))) [
        | inl small ↦
            let clear = narrow-full y (ground arith) in
            let halves = narrow_leading y (ground arith) in
            divides (ground arith) (λ e. omega (arith, e, halves)) ∙ rw (positive, clear) refl
        | inr big ↦ elim (Bool-cases (y / 2 ^ counter y == 2 ^ 32 - 1)) [
          | inl full ↦
              let e = (==_iff (y / 2 ^ counter y) (2 ^ 32 - 1)).0 full in
              let few = (shifted_divisor y (ground arith) k).3 in
              error e ∙ rw (positive, at-full 32 y (counter y) (omega arith) few e) refl
          | inr other ↦
              let fits : y / 2 ^ counter y ≢ 2 ^ 32 - 1 = λ e. ground (arith, e, other) in
              let clear = wide-full y (ground arith) k fits in
              divides (ground arith) fits ∙ rw (positive, clear) refl
        ]
      ]
    ]
