-- ===== src/Process/Chprio.antt =====
-- `chprio` as a whole.
use advanced_operating_syste.Base.{Option, ℕ, ◌≡◌, false, none, some, ◌⊎◌}
use advanced_operating_syste.Base.Int.{ℤ, pos, negsuc, pos_part}
use advanced_operating_syste.Queue.Insert.{insert}
use advanced_operating_syste.Process.State.{
  Kernel, chosen, activable, zombie, prio_of, state_of, update, find, has_pid,
}
use advanced_operating_syste.Process.Calls.{Reply, returned}
use advanced_operating_syste.Process.Others.{is_priority}
use advanced_operating_syste.Process.Ending.{Answers}
use advanced_operating_syste.Process.Priority.{Reprioritized}

-- The three ways in which `chprio` ends.
pub data Chprio (s : Kernel) (c : ℕ) (pid newprio : ℤ) : Option (Kernel × Reply) → Type 0 where
  refused :
      (is_priority newprio ≡ false)
        ⊎ (find (has_pid pid) s.procs (insert (prio_of s) c s.process_list) ≡ none)
      → Chprio s c pid newprio (some (s, returned (negsuc 0)))
  too_late :
      (p : ℕ)
      → find (has_pid pid) s.procs (insert (prio_of s) c s.process_list) ≡ some p
      → state_of s p ≡ zombie
      → Chprio s c pid newprio (
          some (
            record s { procs = update s.procs p (record (s.procs p) { prio = pos_part newprio }) },
            returned (negsuc 0),
          ))
  changed_to :
      {o : Option (Kernel × Reply)} (p : ℕ) (k : Kernel)
      → find (has_pid pid) s.procs (insert (prio_of s) c s.process_list) ≡ some p
      → Reprioritized s c p (pos_part newprio) k
      → Answers k c (pos (prio_of s p)) o
      → Chprio s c pid newprio o

-- The process that `chprio` finds, if any, is not blocked.
abbrev pub FindsSettled : Kernel → ℕ → ℤ → Type 0
FindsSettled s c pid =
    (p : ℕ)
    → find (has_pid pid) s.procs (insert (prio_of s) c s.process_list) ≡ some p
    → ((state_of s p ≡ activable) ⊎ (state_of s p ≡ chosen)) ⊎ (state_of s p ≡ zombie)
