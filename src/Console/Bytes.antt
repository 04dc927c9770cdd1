-- ===== src/Console/Bytes.antt =====
-- shared/console.c: printing a number of bytes, with a counter of 16 bits.
use advanced_operating_syste.Base.{
  ℕ, zero, suc, ◌+◌, ◌%◌, ◌^◌, ◌≤◌, ◌<◌, ◌≡◌, refl, ◌∙◌, ap, subst, true, false, none, some, arith,
  ltb, for_up,
}
use advanced_operating_syste.Console.{Console, traite_car, putbytes_from, console_putbytes}
use advanced_operating_syste.Console.Bounds.{OnScreen, traite_car-Ends}

module _ (text : ℕ → ℕ) (len : ℕ) where
  -- One round of the loop.
  putbytes_round :
      (fuel i : ℕ) (s t : Console)
      → i < len
      → traite_car (text i) s ≡ some t
      → putbytes_from (suc fuel) text len i s ≡ putbytes_from fuel text len ((i + 1) % 2 ^ 16) t
  unfolding putbytes_from
  putbytes_round fuel i s t h run =
      let more : ltb i len ≡ true = ground arith in rw (more, run) refl

  putbytes_rounds :
      (k fuel i : ℕ) (start s : Console)
      → i + k ≡ len
      → len < 2 ^ 16
      → k < fuel
      → OnScreen s
      → for_up i (λ i. traite_car (text i)) start ≡ some s
      → (t : Console) × (putbytes_from fuel text len i s ≡ some (some t))
        × (for_up len (λ i. traite_car (text i)) start ≡ some t)
        × OnScreen t
  unfolding putbytes_from for_up
  putbytes_rounds k zero i start s e small enough on run = elim enough [ ]
  putbytes_rounds zero (suc fuel) i start s e small enough on run =
      let done : ltb i len ≡ false = ground arith in
      let same : i ≡ len = omega arith in
      (
        s,
        rw done refl,
        subst (λ n. for_up n (λ i. traite_car (text i)) start ≡ some s) same run,
        on,
      )
  putbytes_rounds (suc k) (suc fuel) i start s e small enough on run =
      let (u, step, (on', _)) = traite_car-Ends (text i) s on in
      let next : (i + 1) % 2 ^ 16 ≡ suc i = omega arith in
      let (t, rest, all, last) =
        putbytes_rounds k fuel (suc i) start u (omega arith) small (omega arith) on'
          (rw run step) in
      (
        t,
        putbytes_round fuel i s u (omega arith) step
            ∙ ap (λ n. putbytes_from fuel text len n u) next
            ∙ rest,
        all,
        last,
      )

  -- Below 2^16 bytes, `console_putbytes` handles each of them once, in order, and ends with the
  -- cursor on the screen.
  pub console_putbytes-all :
      (fuel : ℕ) (s : Console)
      → len < 2 ^ 16
      → len < fuel
      → OnScreen s
      → (t : Console) × (console_putbytes fuel text len s ≡ some (some t))
        × (for_up len (λ i. traite_car (text i)) s ≡ some t)
        × OnScreen t
  unfolding console_putbytes for_up
  console_putbytes-all fuel s small enough on =
      putbytes_rounds len fuel 0 s s (omega arith) small enough on refl

  putbytes_forever :
      (fuel i : ℕ) (s : Console)
      → 2 ^ 16 ≤ len
      → i < 2 ^ 16
      → OnScreen s
      → putbytes_from fuel text len i s ≡ none
  unfolding putbytes_from
  putbytes_forever zero i s long h on = refl
  putbytes_forever (suc fuel) i s long h on =
      let (u, step, (on', _)) = traite_car-Ends (text i) s on in
      putbytes_round fuel i s u (omega arith) step
      ∙ putbytes_forever fuel ((i + 1) % 2 ^ 16) u long (omega arith) on'

  -- From 2^16 bytes on the counter starts again at 0 before it gets to the length: the call never
  -- ends, whatever the fuel is.
  pub console_putbytes_forever :
      (fuel : ℕ) (s : Console) → 2 ^ 16 ≤ len → OnScreen s → console_putbytes fuel text len s ≡ none
  unfolding console_putbytes
  console_putbytes_forever fuel s long on = putbytes_forever fuel 0 s long (omega arith) on
