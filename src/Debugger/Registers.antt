-- ===== src/Debugger/Registers.antt =====
-- kernel/debugger.c: what a debugger can change.
use advanced_operating_syste.Base.{ℕ, ◌≡◌, Bool, none, some, arith}
use advanced_operating_syste.Debugger.{
  Signal, signo, GdbState, Task, GdbAction, gdb_cont, gdb_detach, gdb_kill, gdb_run, gdb_more,
  debugger,
}

-- Whatever the debugger does, the stacks of the inner rings, the page directory and the other links
-- of the task stay; and the registers are those that it leaves.
pub debugger-links :
    (converse : Signal → GdbState → GdbAction × GdbState) (trapno : ℕ) (s u : Bool × Task)
    → debugger converse trapno s ≡ some u
    → (u.1.links ≡ s.1.links) × (u.1.registers ≡ (converse (signo trapno) s.1.registers).1)
unfolding debugger
debugger-links converse trapno s u e = at (converse (signo trapno) s.1.registers).0 e
  where
    at :
        (a : GdbAction)
        → (elim a [
          | gdb_cont ↦
              some (s.0, record (s.1) { registers = (converse (signo trapno) s.1.registers).1 })
          | gdb_detach ↦
              some
                (Bool.false, record (s.1) { registers = (converse (signo trapno) s.1.registers).1 })
          | gdb_kill ↦ none
          | gdb_run ↦
              some (s.0, record (s.1) { registers = (converse (signo trapno) s.1.registers).1 })
          | gdb_more ↦
              some (s.0, record (s.1) { registers = (converse (signo trapno) s.1.registers).1 })
        ])
          ≡ some u
        → (u.1.links ≡ s.1.links) × (u.1.registers ≡ (converse (signo trapno) s.1.registers).1)
    at gdb_cont e = (ground (arith, e), ground (arith, e))
    at gdb_detach e = (ground (arith, e), ground (arith, e))
    at gdb_kill e = cc
    at gdb_run e = (ground (arith, e), ground (arith, e))
    at gdb_more e = (ground (arith, e), ground (arith, e))
