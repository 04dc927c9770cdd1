-- ===== src/Keyboard/Feed.antt =====
-- kernel/keyboard-glue.c: what reaches the driver.
use advanced_operating_syste.Base.{
  ℕ, ◌<◌, ◌≡◌, refl, ◌∙◌, ap, Bool, true, false, ◌&&◌, not, List, [], ◌∷◌, ◌==◌, ltb, if◌then◌else◌,
  inl, inr, Bool-cases, arith, All, ◌%◌, ◌/◌, ◌^◌,
}
use advanced_operating_syste.Keyboard.{
  Driver, Glue, Keyboard, start_driver, do_scancode, do_scancodes,
}

-- The scancodes that are not an error of the keyboard.
abbrev pub is_key : ℕ → Bool
is_key c = not (c == 0) && not (c == 255)

abbrev pub keys : List ℕ → List ℕ
keys [] = []
keys (c ∷ cs) = if is_key c then c ∷ keys cs else keys cs

module _ {D : Type 0} (d : Driver D) where
  -- The reference: the driver gets each key, pressed below 128 and released from there on, and its
  -- tasklet runs after it.
  unfoldable pub feed : List ℕ → Glue D → Glue D
  feed [] s = s
  feed (c ∷ cs) s = feed cs (d.keyboard_tasklet_fn 0 (d.keyboard_handle_scancode c (ltb c 128) s))

  fed :
      (cs : List ℕ) (s : Glue D)
      → All (λ c. c < 256) cs
      → do_scancodes d cs (record { init = true; glue = s })
        ≡ record { init = true; glue = feed (keys cs) s }
  unfolding do_scancodes do_scancode start_driver feed
  fed [] s bytes = refl
  fed (c ∷ cs) s bytes = elim (Bool-cases (is_key c)) [
    | inl key ↦
        let low : c % 2 ^ 8 ≡ c = omega (arith, bytes.0) in
        let down : not (c / 2 ^ 7 % 2 == 1) ≡ ltb c 128 = ground (arith, bytes.0) in
        rw (key, low, down) (fed cs _ bytes.1)
    | inr other ↦ rw other (fed cs s bytes.1)
  ]

  -- The first call acts on the started driver.
  first :
      (c : ℕ) (s : Glue D)
      → do_scancode d c (record { init = false; glue = s })
        ≡ do_scancode d c (record { init = true; glue = d.keyboard_init s })
  unfolding do_scancode start_driver
  first c s = refl

  -- Before the first scancode, whatever it is, the driver is started, and it is started only once;
  -- it gets every scancode but 0 and 255, in their order, each with its eight bits and whether its
  -- highest bit is clear, and its tasklet runs after each. The state of the glue, which the driver
  -- may change too, is in the end what the driver has made of it.
  pub do_scancodes-feed :
      (c : ℕ) (cs : List ℕ) (s : Keyboard D)
      → s.init ≡ false
      → All (λ c. c < 256) (c ∷ cs)
      → do_scancodes d (c ∷ cs) s
        ≡ record { init = true; glue = feed (keys (c ∷ cs)) (d.keyboard_init s.glue) }
  unfolding do_scancodes
  do_scancodes-feed c cs s fresh bytes =
      ap (λ i. do_scancodes d (c ∷ cs) (record { init = i; glue = s.glue })) fresh
      ∙ ap (do_scancodes d cs) (first c s.glue)
      ∙ fed (c ∷ cs) (d.keyboard_init s.glue) bytes
