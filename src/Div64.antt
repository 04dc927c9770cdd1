-- ===== src/Div64.antt =====
-- shared/div64.c and shared/div64.h: the division of 64-bit numbers on 32-bit registers. The
-- assembly of the macros is written out: shifts by the counter modulo 32, and `divl`.
pub mod Shift
pub mod Estimate
pub mod Quotient
pub mod Divides
pub mod Reference
mod Tests
use advanced_operating_syste.Base.{
  ℕ, zero, suc, ◌+◌, ◌-◌, ◌*◌, ◌/◌, ◌%◌, ◌^◌, Bool, not, Option, none, some, ◌==◌, ltb, leb,
  if◌then◌else◌,
}

-- `bsr`: the place of the highest bit that is set, for `n` below 2^`bits`.
unfoldable pub highest_bit : ℕ → ℕ → ℕ
highest_bit zero n = 0
highest_bit (suc bits) n = let rest = highest_bit bits (n / 2) in if ltb n 2 then 0 else suc rest

unfoldable pub hard_bsr : ℕ → ℕ
hard_bsr n = highest_bit 32 n

-- A number in two registers: the high one and the low one.
abbrev pub Pair : Type 0
Pair = ℕ × ℕ

-- Bit 5 of the counter: what `testb $32` looks at.
abbrev pub bit_5 : ℕ → Bool
bit_5 n = n / 32 % 2 == 1

-- `shrdl` and `shrl` take the counter modulo 32; then, if bit 5 is set, the high register moves to
-- the low one.
unfoldable pub rshift64 : Pair → ℕ → Pair
rshift64 (x1, x0) n =
    let k = n % 32 in
    let low = (x1 * 2 ^ 32 + x0) / 2 ^ k % 2 ^ 32 in
    let high = x1 / 2 ^ k in if bit_5 n then (0, high) else (high, low)

-- The same for the low register only: the high one stays.
unfoldable pub rshift64_32 : Pair → ℕ → ℕ
rshift64_32 (x1, x0) n =
    let low = (x1 * 2 ^ 32 + x0) / 2 ^ (n % 32) % 2 ^ 32 in if bit_5 n then x1 else low

-- `divl`: the remainder and the quotient, or the divide error, for a zero divisor and for a
-- quotient that does not fit a register.
unfoldable pub div64_32 : ℕ → ℕ → ℕ → Option Pair
div64_32 x1 x0 y =
    if y == 0
    then none
    else if leb y x1
    then none
    else some ((x1 * 2 ^ 32 + x0) % y, (x1 * 2 ^ 32 + x0) / y)

-- What `do_div64` comes to: a quotient and a remainder, the divide error of the processor, or the
-- end of the fuel of its loop.
pub data Outcome : Type 0 where
  returns : (quotient rem : ℕ) → Outcome
  divide_error : Outcome
  out_of_fuel : Outcome

-- while (r >= y) { x0++; r -= y; }
unfoldable pub subtract : ℕ → ℕ → ℕ → ℕ → Outcome
subtract zero y x0 r = out_of_fuel
subtract (suc fuel) y x0 r =
    let rest = subtract fuel y ((x0 + 1) % 2 ^ 32) (r - y) in if leb y r then rest else returns x0 r

-- The loop's tests: two rounds at most.
abbrev pub rounds : ℕ
rounds = 3

-- Differences of 64 bits wrap around.
abbrev pub sub_64 : ℕ → ℕ → ℕ
sub_64 a b = (a + 2 ^ 64 - b % 2 ^ 64) % 2 ^ 64

-- What follows a `divl`, with its remainder and its quotient.
abbrev pub after : Option Pair → (ℕ → ℕ → Outcome) → Outcome
after none k = divide_error
after (some (rem, quotient)) k = k rem quotient

-- The branch for a divisor above 32 bits: the shifted numbers, and the division by the highest
-- bits.
unfoldable pub divide_by_top : ℕ → ℕ → Pair → ℕ → Outcome
divide_by_top x y (x1, x0) y0 =
    after (div64_32 x1 x0 ((y0 + 1) % 2 ^ 32))
      (λ rem quotient. subtract rounds y quotient (sub_64 x (y * quotient)))

unfoldable pub divide_wide : ℕ → ℕ → Outcome
divide_wide x y =
    let l = suc (hard_bsr (y / 2 ^ 32)) in
    let y0 = rshift64_32 (y / 2 ^ 32, y % 2 ^ 32) l in
    divide_by_top x y (rshift64 (x / 2 ^ 32, x % 2 ^ 32) l) y0

-- The branch for a divisor of 32 bits and a quotient of 32 bits, and the one for a quotient of 64.
unfoldable pub divide_short : ℕ → ℕ → Outcome
divide_short x y =
    after (div64_32 (x / 2 ^ 32) (x % 2 ^ 32) y) (λ rem quotient. returns quotient rem)

unfoldable pub divide_long : ℕ → ℕ → Outcome
divide_long x y =
    after (div64_32 0 (x / 2 ^ 32) y)
      (λ x2 x1. after (div64_32 x2 (x % 2 ^ 32) y) (λ rem x0. returns (x1 * 2 ^ 32 + x0) rem))

unfoldable pub do_div64 : ℕ → ℕ → Outcome
do_div64 x y =
    if not (y / 2 ^ 32 == 0)
    then divide_wide x y
    else if ltb (x / 2 ^ 32) (y % 2 ^ 32)
    then divide_short x (y % 2 ^ 32)
    else if not (y % 2 ^ 32 == 0)
    then divide_long x (y % 2 ^ 32)
    else returns 0 x

abbrev pub quotient? : Outcome → Option ℕ
quotient? (returns quotient rem) = some quotient
quotient? divide_error = none
quotient? out_of_fuel = none

abbrev pub rem? : Outcome → Option ℕ
rem? (returns quotient rem) = some rem
rem? divide_error = none
rem? out_of_fuel = none

-- The header's functions: `none` when `do_div64` does not return.
unfoldable pub div64 : ℕ → ℕ → Option ℕ
div64 x y = quotient? (do_div64 x y)

unfoldable pub mod64 : ℕ → ℕ → Option ℕ
mod64 x y = rem? (do_div64 x y)
