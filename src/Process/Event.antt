-- ===== src/Process/Event.antt =====
-- The calls of process.c and the clock interrupt as events, and what they are promised to do.
use advanced_operating_syste.Base.{
  ℕ, ◌<◌, ◌^◌, ◌≡◌, true, Option, none, some, List, ◌>>=◌, length, ◌⊎◌,
}
use advanced_operating_syste.Base.Int.{ℤ, pos, ◌+ℤ◌}
use advanced_operating_syste.Process.State.{
  Kernel, chosen, activable, prio_of, state_of, has_pid, find,
}
use advanced_operating_syste.Process.Schedule.{
  ordonnance, unblock, block_send, block_recv, exit, bloque_sur_semaphore, passe_activable,
}
use advanced_operating_syste.Process.Calls.{
  Program, Allocations, is_startable, max_name_length, start, kill,
}
use advanced_operating_syste.Process.Others.{chprio}
use advanced_operating_syste.Process.Places.{places}
use advanced_operating_syste.Process.Switch.{IsValid}
use advanced_operating_syste.Process.Keeps.{Keeps, Keeps-trans}
use advanced_operating_syste.Queue.Insert.{insert}

pub data Event : Type 0 where
  tick blocks_on_sem : Event
  exits kills wakes unblocks blocks_send blocks_recv : ℤ → Event
  starts : Program → List ℕ → ℕ → ℤ → Allocations → Event
  reprioritizes : ℤ → ℤ → Event

abbrev pub kernel_of {ℓ} : {R : Type ℓ} → Option (Kernel × R) → Option Kernel
kernel_of o = o >>= λ r. some r.0

unfoldable pub perform : Event → Kernel → Option Kernel
perform tick s = kernel_of (ordonnance s)
perform blocks_on_sem s = kernel_of (bloque_sur_semaphore s)
perform (exits retval) s = kernel_of (exit retval s)
perform (kills pid) s = kernel_of (kill pid s)
perform (wakes pid) s = some (passe_activable pid s)
perform (unblocks pid) s = kernel_of (unblock pid s)
perform (blocks_send pid) s = kernel_of (block_send pid s)
perform (blocks_recv pid) s = kernel_of (block_recv pid s)
perform (starts prog nom ssize prio mem) s = kernel_of (start prog nom ssize prio mem s)
perform (reprioritizes pid newprio) s = kernel_of (chprio pid newprio s)

-- What `start` takes for granted, if it does not refuse its arguments: the name fits in its field,
-- there is memory for the structure, at an address where no process is, and if there is memory
-- for the stack too, then the stack fits in the address space and there is memory for the child's
-- entry. And what `chprio` takes for granted: the process that it finds, if any, is ready or runs.
abbrev pub Fits : Event → Kernel → Type 0
Fits (starts prog nom ssize prio mem) s =
    (is_startable (s.pidmax +ℤ pos 1) prio ≡ true)
    → (p : ℕ) × (mem.process_at ≡ some p)
      × (places s p ≡ 0)
      × (length nom < max_name_length)
      × ((mem.stack_at ≡ none)
          ⊎ ((base : ℕ) × (child : ℕ) × (mem.stack_at ≡ some base)
              × (mem.child_at ≡ some child)
              × (ssize < 2 ^ 30)))
Fits (reprioritizes pid newprio) s =
    (c p : ℕ)
    → s.running ≡ some c
    → find (has_pid pid) s.procs (insert (prio_of s) c s.process_list) ≡ some p
    → ((state_of s p ≡ activable) ⊎ (state_of s p ≡ chosen))
Fits _ s = Unit {0}

-- A run from `s` that ends in a valid kernel, and spares the terminated processes.
abbrev pub Succeeds : Kernel → Option Kernel → Type 0
Succeeds s o = (u : Kernel) × (c : ℕ) × (o ≡ some u) × IsValid u c × Keeps s u

-- A run on a kernel that was changed before.
pub after_change : (s t : Kernel) (o : Option Kernel) → Keeps s t → Succeeds t o → Succeeds s o
after_change s t o k (u, c, run, v, l) = (u, c, run, v, Keeps-trans s t u k l)
