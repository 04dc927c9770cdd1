-- ===== src/Process/Display.antt =====
-- `display_list` of process.c: what it prints, as a list of the calls of `printf`.
use advanced_operating_syste.Base.{ℕ, Option, none, some, List, [], ◌∷◌, ◌++◌, map}
use advanced_operating_syste.Base.Int.{ℤ}
use advanced_operating_syste.Process.State.{Process, Kernel}

-- The five formats; an entry has the name, the pid and the priority.
pub data Line : Type 0 where
  display_title chosen_title list_title bottom_rule : Line
  entry : List ℕ → ℤ → ℕ → Line

abbrev pub entry_of : Process → Line
entry_of p = entry p.name p.pid p.prio

-- The part about `chosen`, which is left out while it is NULL.
unfoldable pub display_chosen : Option ℕ → (ℕ → Process) → List Line
display_chosen none procs = []
display_chosen (some c) procs = chosen_title ∷ entry_of (procs c) ∷ []

unfoldable pub display_list : List ℕ → Kernel → List Line
display_list head s =
    display_title ∷ display_chosen s.running s.procs
    ++ list_title ∷ map (λ p. entry_of (s.procs p)) head
    ++ bottom_rule ∷ []
