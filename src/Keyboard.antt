-- ===== src/Keyboard.antt =====
-- kernel/keyboard-glue.c: the glue to the keyboard driver, which is another project's code and a
-- parameter here: a state `D`, its start, what it does with a scancode, and its tasklet. It calls
-- back functions of the glue, so each of these may change the state of the glue too. What is typed
-- goes to functions that a kernel may define, the second parameter.
pub mod Feed
mod Tests
use advanced_operating_syste.Base.{
  ℕ, ◌%◌, ◌^◌, ◌/◌, Bool, true, false, ◌&&◌, not, Option, none, some, List, [], ◌∷◌, ◌==◌, ltb,
  if◌then◌else◌,
}

-- `keyboard_tasklet_enabled`, `console_tty.stopped`, and the state of the driver.
pub record Glue (D : Type 0) : Type 0 where
  pub tasklet_enabled : Bool
  pub stopped : Bool
  pub driver : D

pub record Driver (D : Type 0) : Type 0 where
  pub keyboard_init : Glue D → Glue D
  pub keyboard_handle_scancode : ℕ → Bool → Glue D → Glue D
  pub keyboard_tasklet_fn : ℕ → Glue D → Glue D

-- The static variable of `do_scancode`, and what the driver can reach.
pub record Keyboard (D : Type 0) : Type 0 where
  pub init : Bool
  pub glue : Glue D

module _ {D : Type 0} (d : Driver D) where
  -- The first call starts the driver.
  unfoldable pub start_driver : Keyboard D → Keyboard D
  start_driver s = if not s.init then record s { init = true; glue = d.keyboard_init s.glue } else s

  unfoldable pub do_scancode : ℕ → Keyboard D → Keyboard D
  do_scancode scancode s =
      let s = start_driver s in
      let glue =
        d.keyboard_tasklet_fn 0 (
          d.keyboard_handle_scancode (scancode % 2 ^ 8) (not (scancode / 2 ^ 7 % 2 == 1)) s.glue) in
      if not (scancode == 0) && not (scancode == 255) then record s { glue = glue } else s

  unfoldable pub keyboard_enable_tasklet : Glue D → Glue D
  keyboard_enable_tasklet s = record s { tasklet_enabled = true }

  -- The driver has set its tasklet.
  unfoldable pub keyboard_schedule_tasklet : Glue D → Glue D
  keyboard_schedule_tasklet s = if s.tasklet_enabled then d.keyboard_tasklet_fn 0 s else s

  unfoldable pub keyboard_stop_tty : Glue D → Glue D
  keyboard_stop_tty s = if s.stopped then s else record s { stopped = true }

  unfoldable pub keyboard_start_tty : Glue D → Glue D
  keyboard_start_tty s = if not s.stopped then s else record s { stopped = false }

  unfoldable pub keyboard_tty_is_stopped : Glue D → Bool
  keyboard_tty_is_stopped s = s.stopped

  -- Scancodes one after the other.
  unfoldable pub do_scancodes : List ℕ → Keyboard D → Keyboard D
  do_scancodes [] s = s
  do_scancodes (c ∷ cs) s = do_scancodes cs (do_scancode c s)

-- `keyboard_data` and `kbd_leds`. A string is its bytes without the final zero.
pub record Listener (L : Type 0) : Type 0 where
  pub keyboard_data : List ℕ → L → L
  pub kbd_leds : ℕ → L → L

-- A buffer as a string: it ends at the first zero.
unfoldable pub string_of : List ℕ → List ℕ
string_of [] = []
string_of (c ∷ cs) = if c == 0 then [] else c ∷ string_of cs

module _ {L : Type 0} (l : Listener L) where
  unfoldable pub keyboard_send_str : List ℕ → L → L
  keyboard_send_str str = l.keyboard_data str

  -- The character is cut to a byte.
  unfoldable pub keyboard_send_ch : ℕ → L → L
  keyboard_send_ch ch = l.keyboard_data (string_of (ch % 2 ^ 8 ∷ 0 ∷ []))

  unfoldable pub keyboard_pckbd_leds : ℕ → L → L
  keyboard_pckbd_leds leds = l.kbd_leds (leds % 2 ^ 8)

-- There is one console, number 0.
abbrev pub keyboard_fg_console : ℕ
keyboard_fg_console = 0

abbrev pub keyboard_last_console : ℕ
keyboard_last_console = 0

abbrev pub keyboard_vc_cons_allocated : ℕ → Bool
keyboard_vc_cons_allocated nr = nr == 0

-- Keys are always repeated.
abbrev pub keyboard_tty_do_repeat_key : Bool
keyboard_tty_do_repeat_key = true
