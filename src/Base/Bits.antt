-- ===== src/Base/Bits.antt =====
-- Masks, and fields of a word that do not overlap.
use Prim.Native.Nat.{
  ℕ, zero, suc, ◌+◌, ◌-◌, ◌*◌, ◌/◌, ◌%◌, ◌^◌, ◌≤◌, ◌<◌, min, max, bit_and, bit_or, bit_xor, digits,
  differ, bit_and-bitwise, bit_or-bitwise, bit_xor-bitwise,
}
use mathlib.Core.Path.{◌≡◌, refl, ap, sym, ◌∙◌}
use native.Mathlib.Omega.{arith}

-- The value of `digits` does not depend on the fuel, if there is enough.
module _ (rest : ℕ → ℕ) (join : ℕ → ℕ → ℕ) where
  digits-enough : (n m a b : ℕ) → a ≤ n → a ≤ m → digits rest join n a b ≡ digits rest join m a b
  digits-enough zero zero a b h k = refl
  digits-enough zero (suc m) zero b h k = refl
  digits-enough zero (suc m) (suc a) b h k = absurd (omega arith)
  digits-enough (suc n) zero zero b h k = refl
  digits-enough (suc n) zero (suc a) b h k = absurd (omega arith)
  digits-enough (suc n) (suc m) zero b h k = refl
  digits-enough (suc n) (suc m) (suc a) b h k =
      omega (arith, digits-enough n m (suc a / 2) (b / 2) (omega arith) (omega arith))

-- The lowest digit, and the rest.
bit_and-halves : (a b : ℕ) → bit_and a b ≡ bit_and (a / 2) (b / 2) * 2 + min (a % 2) (b % 2)
bit_and-halves zero b = omega (arith, bit_and-bitwise 0 b, bit_and-bitwise 0 (b / 2))
bit_and-halves (suc a) b = omega (
  arith,
  bit_and-bitwise (suc a) b,
  bit_and-bitwise (suc a / 2) (b / 2),
  digits-enough (λ b. zero) min a (suc a / 2) (suc a / 2) (b / 2) (omega arith) (omega arith),
)

bit_or-halves : (a b : ℕ) → bit_or a b ≡ bit_or (a / 2) (b / 2) * 2 + max (a % 2) (b % 2)
bit_or-halves zero b = omega (arith, bit_or-bitwise 0 b, bit_or-bitwise 0 (b / 2))
bit_or-halves (suc a) b = omega (
  arith,
  bit_or-bitwise (suc a) b,
  bit_or-bitwise (suc a / 2) (b / 2),
  digits-enough (λ b. b) max a (suc a / 2) (suc a / 2) (b / 2) (omega arith) (omega arith),
)

zero-bit_or : (b : ℕ) → bit_or 0 b ≡ b
zero-bit_or b = bit_or-bitwise 0 b

bit_or-zero : (fuel a : ℕ) → a ≤ fuel → bit_or a 0 ≡ a
bit_or-zero fuel zero h = refl
bit_or-zero zero (suc a) h = absurd (omega arith)
bit_or-zero (suc fuel) (suc a) h =
    omega (arith, bit_or-halves (suc a) 0, bit_or-zero fuel (suc a / 2) (omega arith))

bit_and-zero : (fuel a : ℕ) → a ≤ fuel → bit_and a 0 ≡ 0
bit_and-zero fuel zero h = refl
bit_and-zero zero (suc a) h = absurd (omega arith)
bit_and-zero (suc fuel) (suc a) h =
    omega (arith, bit_and-halves (suc a) 0, bit_and-zero fuel (suc a / 2) (omega arith))

field-double : (q k : ℕ) → q * 2 ^ suc k ≡ 2 * (q * 2 ^ k)
field-double q k =
    let power : 2 ^ suc k ≡ 2 * 2 ^ k = omega arith in
    let P = 2 ^ k in ap (λ p. q * p) power ∙ swapped q P
  where
    swapped : (q p : ℕ) → q * (2 * p) ≡ 2 * (q * p)
    swapped q p = grind arith

-- A mask of `k` ones keeps the `k` lowest digits.
pub bit_and-mask : (k q r : ℕ) → r < 2 ^ k → bit_and (q * 2 ^ k + r) (2 ^ k - 1) ≡ r
bit_and-mask zero q r h = omega (arith, bit_and-zero (q * 1 + r) (q * 1 + r) (omega arith))
bit_and-mask (suc k) q r h =
    let a = q * 2 ^ suc k + r in
    let m = 2 ^ suc k - 1 in
    let double : q * 2 ^ suc k ≡ 2 * (q * 2 ^ k) = field-double q k in
    let half : a / 2 ≡ q * 2 ^ k + r / 2 = omega arith in
    let mask : m / 2 ≡ 2 ^ k - 1 = omega arith in
    let rest : bit_and (a / 2) (m / 2) ≡ r / 2 =
      ap (λ x. bit_and x (m / 2)) half
      ∙ ap (λ x. bit_and (q * 2 ^ k + r / 2) x) mask
      ∙ bit_and-mask k q (r / 2) (omega arith) in
    omega (arith, bit_and-halves a m, rest, double)

-- A field above the `k` lowest digits, joined with a number below it.
pub bit_or-field : (k a b : ℕ) → b < 2 ^ k → bit_or b (a * 2 ^ k) ≡ a * 2 ^ k + b
bit_or-field zero a zero h = omega (arith, zero-bit_or (a * 1))
bit_or-field zero a (suc b) h = absurd (omega arith)
bit_or-field (suc k) a b h =
    let f = a * 2 ^ suc k in
    let double : f ≡ 2 * (a * 2 ^ k) = field-double a k in
    let half : f / 2 ≡ a * 2 ^ k = omega arith in
    let rest : bit_or (b / 2) (f / 2) ≡ a * 2 ^ k + b / 2 =
      ap (bit_or (b / 2)) half ∙ bit_or-field k a (b / 2) (omega arith) in
    omega (arith, bit_or-halves b f, rest, double)

bit_or_comm_fuel : (fuel a b : ℕ) → a + b ≤ fuel → bit_or a b ≡ bit_or b a
bit_or_comm_fuel fuel zero b h = omega (arith, zero-bit_or b, bit_or-zero b b (omega arith))
bit_or_comm_fuel zero (suc a) b h = absurd (omega arith)
bit_or_comm_fuel (suc fuel) (suc a) b h = omega (
  arith,
  bit_or-halves (suc a) b,
  bit_or-halves b (suc a),
  bit_or_comm_fuel fuel (suc a / 2) (b / 2) (omega arith),
)

pub bit_or_comm : (a b : ℕ) → bit_or a b ≡ bit_or b a
bit_or_comm a b = bit_or_comm_fuel (a + b) a b (omega arith)

pub field-bit_or : (k a b : ℕ) → b < 2 ^ k → bit_or (a * 2 ^ k) b ≡ a * 2 ^ k + b
field-bit_or k a b h = bit_or_comm (a * 2 ^ k) b ∙ bit_or-field k a b h

-- Powers of two.
pub pow_pos : (k : ℕ) → 0 < 2 ^ k
pow_pos zero = omega arith
pow_pos (suc k) = let double : 2 ^ suc k ≡ 2 * 2 ^ k = omega arith in omega (arith, pow_pos k)

pub pow-suc : (k : ℕ) → 2 ^ suc k ≡ 2 * 2 ^ k
pow-suc k = omega arith

pub pow-add : (k j : ℕ) → 2 ^ (k + j) ≡ 2 ^ j * 2 ^ k
pow-add k zero = let same : k + 0 ≡ k = omega arith in ap (λ n. 2 ^ n) same ∙ omega arith
pow-add k (suc j) =
    let shift : k + suc j ≡ suc (k + j) = omega arith in
    let outer : 2 ^ suc (k + j) ≡ 2 * 2 ^ (k + j) = omega arith in
    let inner : 2 ^ suc j ≡ 2 * 2 ^ j = omega arith in
    ap (λ n. 2 ^ n) shift
    ∙ outer
    ∙ ap (λ t. 2 * t) (pow-add k j)
    ∙ regroup (2 ^ j) (2 ^ k)
    ∙ ap (λ t. t * 2 ^ k) (sym inner)
  where
    regroup : (a b : ℕ) → 2 * (a * b) ≡ 2 * a * b
    regroup a b = grind arith

-- The exclusive or of two numbers is no longer than they are.
differ-lt : (a b : ℕ) → a < 2 → b < 2 → differ a b < 2
differ-lt zero b h k = k
differ-lt (suc zero) zero h k = omega arith
differ-lt (suc zero) (suc b) h k = omega arith
differ-lt (suc (suc a)) b h k = absurd (omega arith)

bit_xor-halves : (a b : ℕ) → bit_xor a b ≡ bit_xor (a / 2) (b / 2) * 2 + differ (a % 2) (b % 2)
bit_xor-halves zero b = omega (arith, bit_xor-bitwise 0 b, bit_xor-bitwise 0 (b / 2))
bit_xor-halves (suc a) b = omega (
  arith,
  bit_xor-bitwise (suc a) b,
  bit_xor-bitwise (suc a / 2) (b / 2),
  digits-enough (λ b. b) differ a (suc a / 2) (suc a / 2) (b / 2) (omega arith) (omega arith),
)

pub bit_xor-lt : (k a b : ℕ) → a < 2 ^ k → b < 2 ^ k → bit_xor a b < 2 ^ k
bit_xor-lt zero zero zero h l = omega arith
bit_xor-lt zero zero (suc b) h l = absurd (omega arith)
bit_xor-lt zero (suc a) b h l = absurd (omega arith)
bit_xor-lt (suc k) a b h l = omega (
  arith,
  pow-suc k,
  bit_xor-halves a b,
  bit_xor-lt k (a / 2) (b / 2) (omega (arith, pow-suc k)) (omega (arith, pow-suc k)),
  differ-lt (a % 2) (b % 2) (omega arith) (omega arith),
)
