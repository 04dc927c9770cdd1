-- ===== src/Clock.antt =====
-- shared/time.c: the clock interrupt, the gates of the interrupt table, and the masks of
-- interrupts.
pub mod Count
pub mod Gate
pub mod Mask
mod Tests
use Prim.Native.Nat.{bit_and, bit_or}
use advanced_operating_syste.Base.{
  ℕ, zero, suc, ◌+◌, ◌-◌, ◌*◌, ◌/◌, ◌%◌, ◌^◌, Bool, Option, none, some, List, [], ◌∷◌, ◌==◌, ltb,
  leb, if◌then◌else◌, ◌>>=◌, ◌>>◌, assert, length,
}
use mathlib.Core.List.{reverse}
use advanced_operating_syste.Process.State.{Kernel}
use advanced_operating_syste.Process.Schedule.{ordonnance}
use advanced_operating_syste.Console.{Console, ecrit_car}

-- `time` and the local static `ticks`.
pub record Clock : Type 0 where
  pub time : ℕ
  pub ticks : ℕ

-- The counting part of `tic_PIT`.
unfoldable pub count_tick : Clock → Clock
count_tick s =
    let ticks = s.ticks + 1 in
    if leb 100 ticks
    then record { time = s.time + 1; ticks = 0 }
    else record { time = s.time; ticks = ticks }

-- `time` is an int, and so is the answer.
unfoldable pub nbr_secondes : Clock → ℕ
nbr_secondes s = s.time

-- Hours, minutes and seconds.
unfoldable pub split_time : ℕ → ℕ × ℕ × ℕ
split_time time = let v = time % 3600 in (time / 3600, v / 60, v % 60)

-- The second loop of `display_corner`, over the characters from the last to the first. The number
-- is the int `col` plus one; a column that would be negative is no column of the screen.
unfoldable pub display_back : List ℕ → ℕ → Console → Option Console
display_back [] col s = some s
display_back (c ∷ rest) zero s = none
display_back (c ∷ rest) (suc col) s = do s ← ecrit_car 0 col c s; display_back rest col s

unfoldable pub display_corner : List ℕ → Console → Option Console
display_corner text s = display_back (reverse text) 80 s

-- `format` is `sprintf` with "%02d:%02d:%02d"; the text and its final zero go into 8 bytes. The
-- corner is drawn when the interrupted process has the processor again; here it has kept it, or has
-- got it back with this console.
unfoldable pub tic_pit :
    (ℕ × ℕ × ℕ → List ℕ) → Clock → Kernel → Console → Option (Clock × Kernel × Bool × Console)
tic_pit format clock k s = do
  let clock = count_tick clock
  let timestring = format (split_time clock.time)
  assert (ltb (length timestring) 8)
  (k, switched) ← ordonnance k
  s ← display_corner timestring s
  some (clock, k, switched, s)

abbrev pub kernel_cs : ℕ
kernel_cs = 16

abbrev pub idt_addr : ℕ
idt_addr = 4096

-- The two words of a gate, in a memory of 32-bit words by address.
unfoldable pub gate_words : ℕ → ℕ × ℕ
gate_words traitant =
    let traitant_low = traitant % 2 ^ 16 in
    let traitant_high = traitant / 2 ^ 16 % 2 ^ 16 in
    (bit_or (kernel_cs * 2 ^ 16) traitant_low, bit_or (traitant_high * 2 ^ 16) 36352)

unfoldable pub init_traitant_it : ℕ → ℕ → (ℕ → ℕ) → ℕ → ℕ
init_traitant_it num_it traitant m =
    let (first, second) = gate_words traitant in
    let m1 : ℕ → ℕ = λ a. if a == idt_addr + num_it * 2 * 4 then first else m a in
    λ a. if a == idt_addr + (num_it * 2 + 1) * 4 then second else m1 a

-- The divisor that `set_clock_fqc` gives the timer, low byte first, after the command.
unfoldable pub set_clock_fqc : List (ℕ × ℕ)
set_clock_fqc = (52, 67) ∷ (1193181 / 100 % 256, 64) ∷ (1193181 / 100 / 2 ^ 8 % 2 ^ 8, 64) ∷ []

-- The two masks of the `switch`. For another number the source uses them without a value: `none`.
unfoldable pub masks : ℕ → Option (ℕ × ℕ)
masks num_irq =
    if num_irq == 0
    then some (0, 254)
    else if num_irq == 1
    then some (1, 252)
    else if num_irq == 2
    then some (3, 248)
    else if num_irq == 3
    then some (7, 240)
    else if num_irq == 4
    then some (15, 224)
    else if num_irq == 5
    then some (31, 192)
    else if num_irq == 6
    then some (63, 128)
    else if num_irq == 7
    then some (127, 0)
    else none

-- The new value of the mask register, from the one that `inb` gave.
unfoldable pub masque_irq : ℕ → Bool → ℕ → Option ℕ
masque_irq num_irq masque mask_array = do
  (low_mask, high_mask) ← masks num_irq
  let high_bits = bit_and mask_array high_mask
  let low_bits = bit_and mask_array low_mask
  let mask_array = bit_or high_bits (if masque then 1 else 0)
  some (bit_or mask_array low_bits)
