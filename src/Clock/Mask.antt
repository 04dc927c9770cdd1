-- ===== src/Clock/Mask.antt =====
-- shared/time.c: what `masque_IRQ` does to the register of masks.
use Prim.Native.Nat.{max}
use advanced_operating_syste.Base.{
  ℕ, zero, suc, ◌+◌, ◌-◌, ◌*◌, ◌/◌, ◌%◌, ◌^◌, ◌<◌, ◌≡◌, refl, ap, arith, Bool, true, false, ◌&&◌,
  Option, none, some, ◌==◌, ==_iff, if◌then◌else◌,
}
use advanced_operating_syste.Clock.{masks, masque_irq}

abbrev pub bit : Bool → ℕ
bit b = if b then 1 else 0

-- The register with one bit cleared, and then the lowest bit set if asked.
abbrev pub cleared : ℕ → Bool → ℕ → ℕ
cleared num masque mask =
    let kept = mask - mask / 2 ^ num % 2 * 2 ^ num in kept / 2 * 2 + max (kept % 2) (bit masque)

abbrev agrees : Option ℕ → ℕ → Bool
agrees none v = false
agrees (some w) v = w == v

agrees_eq : (o : Option ℕ) (v : ℕ) → agrees o v ≡ true → o ≡ some v
agrees_eq none v h = cc
agrees_eq (some w) v h = ap some ((==_iff w v).0 h)

-- A test of all numbers below a bound, and what it says of one of them.
every : ℕ → (ℕ → Bool) → Bool
every zero p = true
every (suc n) p = p n && every n p

every-one : (n : ℕ) (p : ℕ → Bool) (x : ℕ) → every n p ≡ true → x < n → p x ≡ true
unfolding every
every-one zero p x h lt = absurd (omega arith)
every-one (suc n) p x h lt = ground (arith, every-one n p x)

abbrev row : Bool → ℕ → Bool
row masque num = every 256 (λ mask. agrees (masque_irq num masque mask) (cleared num masque mask))

table : (masque : Bool) → every 8 (row masque) ≡ true
unfolding every masque_irq masks
table true = refl
table false = refl

-- For each of the eight interrupts, `masque_IRQ` first clears the bit of the interrupt, whatever is
-- asked, and then sets the lowest bit, the clock's, if a mask is asked for. So the interrupt is let
-- through in every case but one, a mask that is asked for the clock itself.
pub masque_irq-cleared :
    (num : ℕ) (masque : Bool) (mask : ℕ)
    → num < 8
    → mask < 2 ^ 8
    → masque_irq num masque mask ≡ some (cleared num masque mask)
masque_irq-cleared num masque mask h k =
    agrees_eq (masque_irq num masque mask) (cleared num masque mask) (
      every-one 256 (λ mask. agrees (masque_irq num masque mask) (cleared num masque mask)) mask
        (every-one 8 (row masque) num (table masque) h) k)
