-- ===== src/Debugger/Dump.antt =====
-- kernel/debugger.c: the screen of `dump_registers`, and the keys of `trap_handler`.
pub mod Restore
use advanced_operating_syste.Base.{
  ℕ, zero, suc, ◌+◌, ◌*◌, ◌-◌, ◌<◌, ◌≤◌, Bool, true, false, not, ◌&&◌, Option, none, some, List, [],
  ◌∷◌, ◌==◌, ltb, leb, if◌then◌else◌,
}
use advanced_operating_syste.Paging.{write}
use advanced_operating_syste.Debugger.{
  Signal, GdbState, GdbAction, Task, debugger, screen_base, fields, write_fields,
}

-- One line of the text: `n` characters of the line `i`. The lines of `task_dump_screen` have 81.
unfoldable pub fill_line : ℕ → ℕ → (ℕ → ℕ) → (ℕ → ℕ) → ℕ → ℕ
fill_line zero i text m = m
fill_line (suc n) i text m =
    write (screen_base + (i * 160 + n * 2)) (text (i * 81 + n)) (fill_line n i text m)

unfoldable pub fill_lines : ℕ → (ℕ → ℕ) → (ℕ → ℕ) → ℕ → ℕ
fill_lines zero text m = m
fill_lines (suc n) text m = fill_line 80 n text (fill_lines n text m)

-- The attributes of `n` cells from `first` on.
unfoldable pub colour : ℕ → ℕ → ℕ → (ℕ → ℕ) → ℕ → ℕ
colour zero first value m = m
colour (suc n) first value m =
    write (screen_base + (2 * (first + n) + 1)) value (colour n first value m)

-- What does not depend on the task: the text, and the colours of the screen and of its title.
unfoldable pub background : (ℕ → ℕ) → (ℕ → ℕ) → ℕ → ℕ
background text m = colour 78 161 52 (colour 2000 0 48 (fill_lines 25 text m))

-- What stays the same while the handler runs: the trap, its error code, the address of the task and
-- the task, the text of the screen, and `gdb_serial_converse`.
pub record Trap : Type 0 where
  pub trapno : ℕ
  pub error_code : ℕ
  pub at : ℕ
  pub task : Task
  pub text : ℕ → ℕ
  pub converse : Signal → GdbState → GdbAction × GdbState

unfoldable pub dump_registers : Trap → (ℕ → ℕ) → ℕ → ℕ
dump_registers k m = write_fields (fields k.trapno k.error_code k.at k.task) (background k.text m)

-- `memcpy(screen_base, video_mem, sizeof(video_mem))`.
unfoldable pub restore : (ℕ → ℕ) → (ℕ → ℕ) → ℕ → ℕ
restore video_mem m a =
    if leb screen_base a && ltb a (screen_base + 4000) then video_mem (a - screen_base) else m a

-- Where the handler reads the next byte of the keyboard: in its `switch`, or in one of the loops
-- that wait until a key is released.
pub data Stage : Type 0 where
  reading releasing leaving debugging : Stage

-- How far it comes with the bytes that the keyboard gives: it reads on, it returns with the screen,
-- with `do_debug` and the task, or it has started the machine again.
pub data Outcome : Type 0 where
  waiting : (screen : ℕ → ℕ) → Outcome
  returned : (screen : ℕ → ℕ) → Bool × Task → Outcome
  rebooted : Outcome

abbrev pub debugged : (ℕ → ℕ) → Option (Bool × Task) → Outcome
debugged m none = rebooted
debugged m (some s) = returned m s

-- The loop of `trap_handler`, for the bytes that it reads.
unfoldable pub trap_keys : Trap → (ℕ → ℕ) → List ℕ → Stage → Bool → (ℕ → ℕ) → Outcome
trap_keys k video_mem [] stage d m = waiting m
trap_keys k video_mem (c ∷ cs) reading d m =
    let space =
      trap_keys k video_mem cs releasing (not d)
        (if not d then dump_registers k m else restore video_mem m) in
    let leave = trap_keys k video_mem cs leaving d (restore video_mem m) in
    let debug = trap_keys k video_mem cs debugging d (restore video_mem m) in
    let other = trap_keys k video_mem cs reading d m in
    if c == 57
    then space
    else if c == 1
    then rebooted
    else if c == 23
    then leave
    else if c == 32
    then debug
    else other
trap_keys k video_mem (c ∷ cs) releasing d m =
    let held = trap_keys k video_mem cs releasing d m in
    let released = trap_keys k video_mem cs reading d m in if c == 57 then held else released
trap_keys k video_mem (c ∷ cs) leaving d m =
    let held = trap_keys k video_mem cs leaving d m in
    if c == 23 then held else returned m (false, k.task)
trap_keys k video_mem (c ∷ cs) debugging d m =
    let held = trap_keys k video_mem cs debugging d m in
    if c == 32 then held else debugged m (debugger k.converse k.trapno (true, k.task))

-- The whole handler, on a screen `m`.
unfoldable pub trap_handler : Trap → Bool → List ℕ → (ℕ → ℕ) → Outcome
trap_handler k do_debug keys m =
    if do_debug
    then debugged m (debugger k.converse k.trapno (do_debug, k.task))
    else trap_keys k (λ i. m (screen_base + i)) keys reading true (dump_registers k m)
