-- ===== src/Debugger/Dump/Restore.antt =====
-- kernel/debugger.c: `trap_handler` gives the screen back.
use advanced_operating_syste.Base.{ℕ, ◌+◌, ◌<◌, ◌≤◌, ◌≡◌, ◌⊎◌, Bool, true, false, some}
use advanced_operating_syste.Debugger.{debugger, screen_base}
use advanced_operating_syste.Debugger.Dump.{
  Trap, dump_registers, Stage, reading, releasing, leaving, debugging, Outcome, waiting, returned,
  rebooted,
}

abbrev Outside : ℕ → Type 0
Outside a = (a < screen_base) ⊎ (screen_base + 4000 ≤ a)

-- The screen that belongs to `d`: the dump, or what was there before.
abbrev pub shown : Trap → (ℕ → ℕ) → Bool → ℕ → ℕ
shown k m true = dump_registers k m
shown k m false = m

-- Where the handler ends, the screen is what it was, and a task that no debugger has changed is
-- what it was; while it reads on, the screen is that one or the dump.
abbrev pub GivesBack : Trap → (ℕ → ℕ) → Outcome → Type 0
GivesBack k m (waiting n) = (d : Bool) × (n ≡ shown k m d)
GivesBack k m (returned n s) =
    (n ≡ m) × ((s ≡ (false, k.task)) ⊎ (debugger k.converse k.trapno (true, k.task) ≡ some s))
GivesBack k m rebooted = Unit

module _ (k : Trap) (m : ℕ → ℕ) where
  -- What is on the screen at a stage of the loop.
  abbrev Kept : Stage → Bool → (ℕ → ℕ) → Type 0
  Kept reading d n = n ≡ shown k m d
  Kept releasing d n = n ≡ shown k m d
  Kept leaving d n = n ≡ m
  Kept debugging d n = n ≡ m

  abbrev video_mem : ℕ → ℕ
  video_mem i = m (screen_base + i)
