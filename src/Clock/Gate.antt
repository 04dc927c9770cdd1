-- ===== src/Clock/Gate.antt =====
-- shared/time.c: the gates that `init_traitant_IT` writes.
use Prim.Native.Nat.{bit_or}
use advanced_operating_syste.Base.{ℕ, ◌+◌, ◌*◌, ◌/◌, ◌%◌, ◌^◌, ◌<◌, ◌≡◌, ◌≢◌, ◌∙◌, arith}
use advanced_operating_syste.Base.Bits.{field-bit_or}
use advanced_operating_syste.Clock.{kernel_cs, idt_addr, gate_words, init_traitant_it}

-- The address of a gate.
abbrev pub gate_at : ℕ → ℕ
gate_at num = idt_addr + num * 8

-- The processor's reading of a gate: the offset, the selector, and the type.
pub record ReadsAs (m : ℕ → ℕ) (num offset selector kind : ℕ) : Type 0 where
  pub offset_bits : m (gate_at num + 4) / 2 ^ 16 * 2 ^ 16 + m (gate_at num) % 2 ^ 16 ≡ offset
  pub selector_bits : m (gate_at num) / 2 ^ 16 ≡ selector
  pub kind_bits : m (gate_at num + 4) % 2 ^ 16 ≡ kind

-- `init_traitant_IT` makes the gate lead to the handler in the kernel's code segment, as a present
-- interrupt gate (0x8E00), and changes no other word of memory.
pub init_traitant_it-ReadsAs :
    (num traitant : ℕ) (m : ℕ → ℕ)
    → traitant < 2 ^ 32
    → ReadsAs (init_traitant_it num traitant m) num traitant kernel_cs 36352
      × ((a : ℕ) → a ≢ gate_at num → a ≢ gate_at num + 4 → init_traitant_it num traitant m a ≡ m a)
unfolding init_traitant_it gate_words
init_traitant_it-ReadsAs num traitant m h =
    let first = field-bit_or 16 kernel_cs (traitant % 2 ^ 16) (omega arith) in
    let second = field-bit_or 16 (traitant / 2 ^ 16 % 2 ^ 16) 36352 (omega arith) in
    let at_first : init_traitant_it num traitant m (gate_at num)
        ≡ bit_or (kernel_cs * 2 ^ 16) (traitant % 2 ^ 16) =
      ground arith in
    let at_second : init_traitant_it num traitant m (gate_at num + 4)
        ≡ bit_or (traitant / 2 ^ 16 % 2 ^ 16 * 2 ^ 16) 36352 =
      ground arith in
    let word0 = at_first ∙ first in
    let word1 = at_second ∙ second in
    (
      record {
        offset_bits = omega (arith, word0, word1);
        selector_bits = omega (arith, word0);
        kind_bits = omega (arith, word1);
      },
      λ a n k. ground arith,
    )
