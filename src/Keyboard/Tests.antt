-- ===== src/Keyboard/Tests.antt =====
-- Examples for kernel/keyboard-glue.c.
use advanced_operating_syste.Base.{
  ℕ, ◌≡◌, Bool, true, false, List, [], ◌∷◌, arith, refl, ◌||◌, ◌==◌,
}
use advanced_operating_syste.Keyboard.{
  Driver, Glue, Keyboard, Listener, string_of, keyboard_send_ch, keyboard_send_str, do_scancodes,
  keyboard_stop_tty, keyboard_start_tty, keyboard_tty_is_stopped,
}
use advanced_operating_syste.Keyboard.Feed.{feed, do_scancodes-feed}

-- A driver that remembers what it got, the last first; its start enables the tasklet, and the key
-- 70 stops the console.
abbrev log : Driver (List (ℕ × Bool))
log = record {
  keyboard_init = λ s. record { tasklet_enabled = true; stopped = s.stopped; driver = [] };
  keyboard_handle_scancode =
      λ c down s. record s { stopped = s.stopped || (c == 70); driver = (c, down) ∷ s.driver };
  keyboard_tasklet_fn = λ n s. s;
}

abbrev unused : Glue (List (ℕ × Bool))
unused = record { tasklet_enabled = false; stopped = false; driver = (9, true) ∷ [] }

abbrev fresh : Keyboard (List (ℕ × Bool))
fresh = record { init = false; glue = unused }

do_scancodes-feed_example : do_scancodes log (0 ∷ 30 ∷ 255 ∷ 198 ∷ 70 ∷ []) fresh ≡ record {
  init = true;
  glue = record {
    tasklet_enabled = true;
    stopped = true;
    driver = (70, true) ∷ (198, false) ∷ (30, true) ∷ [];
  };
}
unfolding feed
do_scancodes-feed_example =
    do_scancodes-feed log 0 (30 ∷ 255 ∷ 198 ∷ 70 ∷ []) fresh refl
      (omega arith, (omega arith, (omega arith, (omega arith, (omega arith, tt)))))

stopped_and_started :
    keyboard_tty_is_stopped log (keyboard_start_tty log (keyboard_stop_tty log unused)) ≡ false
unfolding keyboard_tty_is_stopped keyboard_start_tty keyboard_stop_tty
stopped_and_started = refl

-- A kernel that keeps the strings, the last first.
abbrev typed : Listener (List (List ℕ))
typed = record { keyboard_data = λ str s. str ∷ s; kbd_leds = λ leds s. s }

-- A character is cut to a byte, and a zero byte is no character.
sends_bytes :
    keyboard_send_ch typed 256 (keyboard_send_ch typed 321 (keyboard_send_str typed (66 ∷ []) []))
    ≡ [] ∷ (65 ∷ []) ∷ (66 ∷ []) ∷ []
unfolding keyboard_send_ch keyboard_send_str string_of
sends_bytes = refl
