-- ===== src/Debugger/Hex.antt =====
-- kernel/debugger.c: the numbers on the screen.
use advanced_operating_syste.Base.{
  ℕ, zero, suc, ◌+◌, ◌-◌, ◌*◌, ◌/◌, ◌%◌, ◌≤◌, ◌<◌, ◌≡◌, ◌⊎◌, inr, refl, ◌∙◌, ap, List, [], ◌∷◌,
  arith, All,
}
use advanced_operating_syste.Debugger.{
  screen_base, disp, write_digits, write_hex, Field, Task, fields, write_fields,
}

-- A value without its `j` last hexadecimal digits.
unfoldable pub shifted : ℕ → ℕ → ℕ
shifted zero value = value
shifted (suc j) value = shifted j (value / 16)

module _ (p : ℕ) where
  write_digits-outside :
      (length value : ℕ) (m : ℕ → ℕ) (q a : ℕ)
      → q ≤ p
      → 2 * length ≤ q
      → ((a < q - 2 * length) ⊎ (q ≤ a))
      → write_digits length q value m a ≡ m a
  unfolding write_digits
  write_digits-outside zero value m q a h k out = refl
  write_digits-outside (suc length) value m q a h k out =
      write_digits-outside length (value / 16) _ (q - 2) a (omega arith) (omega arith)
        (ground arith)
      ∙ ground arith

write_digits-digit :
    (length p value : ℕ) (m : ℕ → ℕ) (j : ℕ)
    → 2 * length ≤ p
    → j < length
    → write_digits length p value m (p - 2 * suc j) ≡ disp (shifted j value % 16)
unfolding write_digits shifted
write_digits-digit zero p value m j h lt = absurd (omega arith)
write_digits-digit (suc length) p value m zero h lt =
    write_digits-outside p length (value / 16) _ (p - 2) (p - 2) (omega arith) (omega arith)
      (inr (omega arith))
    ∙ ground arith
write_digits-digit (suc length) p value m (suc j) h lt =
    ap (write_digits length (p - 2) (value / 16) _) {x = p - 2 * suc (suc j)}
      {y = p - 2 - 2 * suc j} (omega arith)
    ∙ write_digits-digit length (p - 2) (value / 16) _ j (omega arith) (omega arith)

-- `write_hex` puts the last `length` hexadecimal digits of the value into the cells from its column
-- (counted from 1) on, the highest first.
pub write_hex-digits :
    (line col length value : ℕ) (m : ℕ → ℕ) (j : ℕ)
    → 1 ≤ col
    → j < length
    → write_hex line col length value m
        (screen_base + ((line - 1) * 160 + (col + (length - 1 - j) - 1) * 2))
      ≡ disp (shifted j value % 16)
unfolding write_hex
write_hex-digits line col length value m j h lt =
    let p = screen_base + ((line - 1) * 160 + (col + length - 1) * 2) in
    ap (write_digits length p value m)
      {x = screen_base + ((line - 1) * 160 + (col + (length - 1 - j) - 1) * 2)} {y = p - 2 * suc j}
      (omega arith)
    ∙ write_digits-digit length p value m j (omega arith) lt

-- The number lies on the screen.
abbrev pub OnScreen : Field → Type 0
OnScreen (line, col, length, value) = (1 ≤ line) × (line ≤ 25) × (1 ≤ col) × (col + length ≤ 81)

write_fields-outside :
    (fs : List Field) (m : ℕ → ℕ) (a : ℕ)
    → All OnScreen fs
    → ((a < screen_base) ⊎ (screen_base + 4000 ≤ a))
    → write_fields fs m a ≡ m a
unfolding write_fields write_hex
write_fields-outside [] m a on out = refl
write_fields-outside ((line, col, length, value) ∷ fs) m a on out =
    let p = screen_base + ((line - 1) * 160 + (col + length - 1) * 2) in
    write_fields-outside fs _ a on.1 out
    ∙ write_digits-outside p length value m p a (omega arith) (ground (arith, on.0))
        (ground (arith, on.0))

-- The numbers of `dump_registers` all lie on the screen, whatever their values are: it changes no
-- byte outside the 4000 of the screen.
pub dump_registers-outside :
    (trapno error_code at : ℕ) (t : Task) (m : ℕ → ℕ) (a : ℕ)
    → ((a < screen_base) ⊎ (screen_base + 4000 ≤ a))
    → write_fields (fields trapno error_code at t) m a ≡ m a
unfolding fields
dump_registers-outside trapno error_code at t m a out =
    write_fields-outside (fields trapno error_code at t) m a (ground arith) out
