-- ===== src/Sem/Tests.antt =====
-- Examples for kernel/sem.c: one semaphore, of value 3, in a kernel with one process.
use advanced_operating_syste.Base.{if◌then◌else◌, ◌≡◌, refl, some, [], ◌∷◌, arith}
use advanced_operating_syste.Base.Int.{ℤ, pos, negsuc, ◌-ℤ◌, ◌+ℤ◌, leb_ℤ}
use advanced_operating_syste.Process.State.{chosen, Kernel}
use advanced_operating_syste.Process.Calls.{returned, new_process}
use advanced_operating_syste.Sem.State.{Semaphore, System, sem_courant, write_courant}
use advanced_operating_syste.Sem.Calls.{schedule, signaln, try_wait}
use advanced_operating_syste.Sem.Free.{IsFree, AllFree}
use advanced_operating_syste.Sem.Reach.{here, next, try_waits, perform, Reach-AllFree}
use advanced_operating_syste.Sem.Counting.{signaln_adds}
use advanced_operating_syste.Sem.Store.{Numbered}

abbrev alone : Kernel
alone = record {
  procs = λ _. new_process (pos 1) [] chosen;
  process_list = [];
  sleeping_list = [];
  to_kill_list = [];
  running = some 100;
  pidmax = pos 1;
}

abbrev three : Semaphore
three = record { sid = pos 0; val = pos 3; p_bloques = [] }

abbrev with_value : ℤ → System
with_value v = record {
  kernel = alone;
  nb_sem = 1;
  sems = record { sid = pos 0; val = v; p_bloques = [] } ∷ [];
}

abbrev one : System
one = with_value (pos 3)

three-IsFree : IsFree three
three-IsFree = (refl, (omega arith, omega arith))

found : sem_courant (pos 0) one.sems ≡ some three
unfolding sem_courant
found = refl

taken : perform (try_waits (pos 0)) one ≡ some (with_value (pos 2), returned (pos 0))
unfolding perform try_wait sem_courant write_courant ◌-ℤ◌
taken = refl

Reach-AllFree_example : AllFree (with_value (pos 2))
Reach-AllFree_example =
    Reach-AllFree {s = one} {t = with_value (pos 2)} (three-IsFree, tt)
      (next (try_waits (pos 0)) here tt taken)

abbrev empty : System
empty = record { kernel = alone; nb_sem = 0; sems = [] }

abbrev deleted : System
deleted = record one { sems = record { sid = negsuc 0; val = pos 3; p_bloques = [] } ∷ [] }

one-Numbered : Numbered one
unfolding ◌-ℤ◌
one-Numbered = (omega arith, tt)

signaln_adds_example : signaln (pos 0) (pos 4) one ≡ (
    if leb_ℤ (pos 3 +ℤ pos 4) (pos 32767)
    then schedule (record one {
      sems = write_courant (pos 0) (record three { val = pos 3 +ℤ pos 4 }) one.sems;
    })
    else some (one, returned (negsuc 1)))
signaln_adds_example = signaln_adds one (pos 0) three refl found three-IsFree 4
