-- ===== src/Process/Reach.antt =====
-- Histories of the scheduler: calls of process.c, one after another.
use advanced_operating_syste.Base.{ℕ, ◌≡◌, refl, subst, some, arith}
use advanced_operating_syste.Process.State.{Kernel, blocked_on_sem, set_state}
use advanced_operating_syste.Process.Schedule.{unblock, block_send, block_recv, passe_activable}
use advanced_operating_syste.Process.Switch.{IsValid}
use advanced_operating_syste.Process.Choice.{ordonnance-Outcome}
use advanced_operating_syste.Process.Ending.{
  IsValid-procs, terminated, terminated-IsValid, exit-Outcome,
}
use advanced_operating_syste.Process.Blocking.{bloque_sur_semaphore-Outcome}
use advanced_operating_syste.Process.Keeps.{Keeps, Keeps-refl, Keeps-trans}
use advanced_operating_syste.Process.Event.{
  Event, tick, blocks_on_sem, exits, kills, wakes, unblocks, blocks_send, blocks_recv, starts,
  reprioritizes, perform, Fits, Succeeds, after_change,
}
use advanced_operating_syste.Process.Steps.{
  Outcome-Succeeds, change_found-Succeeds, kill-Succeeds, wakes-IsValid, wakes-Keeps,
  own_change-Keeps, start-Succeeds, chprio-Succeeds,
}

-- No call fails in a valid kernel: no assertion is violated, no null pointer followed, no loop
-- left running, and the kernel that it leaves is valid again and has spared the terminated
-- processes. `start` and `chprio` need what `Fits` says.
pub perform-Succeeds :
    (e : Event) (s : Kernel) (c : ℕ) → IsValid s c → Fits e s → Succeeds s (perform e s)
unfolding perform unblock block_send block_recv
perform-Succeeds tick s c v w = Outcome-Succeeds v (ordonnance-Outcome s c v)
perform-Succeeds blocks_on_sem s c v w =
    after_change s (set_state c blocked_on_sem s) _ (own_change-Keeps s c v _ refl) (
      Outcome-Succeeds (IsValid-procs s c _ v (λ q. ground arith) (λ q e. ground arith))
        (bloque_sur_semaphore-Outcome s c v))
perform-Succeeds (exits retval) s c v w =
    after_change s (terminated c retval s) _ (own_change-Keeps s c v _ refl)
      (Outcome-Succeeds (terminated-IsValid s c c retval v) (exit-Outcome s c retval v))
perform-Succeeds (kills pid) s c v w = kill-Succeeds s c v pid
perform-Succeeds (wakes pid) s c v w =
    (passe_activable pid s, c, refl, wakes-IsValid s c v pid, wakes-Keeps s c v pid)
perform-Succeeds (unblocks pid) s c v w =
    change_found-Succeeds s c v _ _ (λ p. refl) (λ p. refl) (λ p e. ground arith)
perform-Succeeds (blocks_send pid) s c v w =
    change_found-Succeeds s c v _ _ (λ p. refl) (λ p. refl) (λ p e. ground arith)
perform-Succeeds (blocks_recv pid) s c v w =
    change_found-Succeeds s c v _ _ (λ p. refl) (λ p. refl) (λ p e. ground arith)
perform-Succeeds (starts prog nom ssize prio mem) s c v w =
    start-Succeeds s c v prog nom ssize prio mem w
perform-Succeeds (reprioritizes pid newprio) s c v w = chprio-Succeeds s c v pid newprio w

pub data Reach (s : Kernel) : Kernel → Type 0 where
  here : Reach s s
  next : {t u : Kernel} (e : Event) → Reach s t → Fits e t → perform e t ≡ some u → Reach s u

-- What holds along a history.
pub Reach-Keeps :
    {s t : Kernel} {c : ℕ} → IsValid s c → Reach s t → ((z : ℕ) × IsValid t z) × Keeps s t
Reach-Keeps {s} {t} {c} v here = ((c, v), Keeps-refl s)
Reach-Keeps {s} v (next {t} {u} e reach w run) =
    let ((z, valid), kept) = Reach-Keeps v reach in
    let (u', z', run', valid', kept') = perform-Succeeds e t z valid w in
    let same : u' ≡ u = ground (arith, run, run') in
    (
      (z', subst (λ k. IsValid k z') same valid'),
      Keeps-trans s t u kept (subst (Keeps t) same kept'),
    )

-- From a valid kernel, every history of clock interrupts and of the calls `start`, `exit`, `kill`,
-- `chprio`, `unblock`, `block_send`, `block_recv`, `bloque_sur_semaphore` and `passe_activable`, in
-- which `start` finds what it takes for granted and `chprio` finds nobody or a process that is
-- ready or runs, leads to a valid kernel, in which a further such call succeeds and leaves a valid
-- kernel. Along it a terminated process that waits in `toKill_list` stays there unchanged, and if
-- pids differ and none is above the counter, that stays so.
pub Reach-IsValid :
    {s t : Kernel} {c : ℕ} (e : Event)
    → IsValid s c
    → Reach s t
    → Fits e t
    → ((z : ℕ) × IsValid t z) × Keeps s t × Succeeds t (perform e t)
Reach-IsValid {s} {t} e v reach fits =
    let ((z, valid), kept) = Reach-Keeps v reach in
    ((z, valid), kept, perform-Succeeds e t z valid fits)
