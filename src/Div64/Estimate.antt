-- ===== src/Div64/Estimate.antt =====
-- shared/div64.c: the quotient that is computed from the highest bits.
use native.Mathlib.Nat.{mul-le-mul_left, mul-le-mul_right}
use advanced_operating_syste.Base.{ℕ, ◌+◌, ◌*◌, ◌≤◌, ◌<◌, ◌≡◌, arith}

module _ (x y m X Y q : ℕ) where
  regroup_divisor : q * ((Y + 1) * m) ≡ q * (Y + 1) * m
  regroup_divisor = grind arith

  regroup_quotient : Y * m * (q + 3) ≡ Y * (q + 3) * m
  regroup_quotient = grind arith

  commuted : q * y ≡ y * q
  commuted = grind arith

  -- q is at most the quotient of x and y.
  pub estimate-low : X * m ≤ x → y < (Y + 1) * m → q * (Y + 1) ≤ X → y * q ≤ x
  estimate-low a d e =
      let times : q * y ≤ q * ((Y + 1) * m) = mul-le-mul_left q (omega arith) in
      let scaled : q * (Y + 1) * m ≤ X * m = mul-le-mul_right m e in
      omega (arith, a, times, scaled, regroup_divisor, commuted)

  room : q + 1 ≤ 2 * Y → (q + 1) * (Y + 1) ≤ Y * (q + 3)
  room g =
      let left : (q + 1) * (Y + 1) ≡ q * Y + q + Y + 1 = grind arith in
      let right : Y * (q + 3) ≡ q * Y + 3 * Y = grind arith in omega (arith, left, right, g)

  -- It is less than three below it.
  pub estimate-high :
      x < (X + 1) * m → Y * m ≤ y → X < (q + 1) * (Y + 1) → q + 1 ≤ 2 * Y → x < y * (q + 3)
  estimate-high b c f g =
      let near : (X + 1) * m ≤ Y * (q + 3) * m = mul-le-mul_right m (omega (arith, f, room g)) in
      let scaled : Y * m * (q + 3) ≤ y * (q + 3) = mul-le-mul_right (q + 3) c in
      omega (arith, b, near, scaled, regroup_quotient)
