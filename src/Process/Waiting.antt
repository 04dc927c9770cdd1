-- ===== src/Process/Waiting.antt =====
-- `waitpid`: a parent gets the value that its child has given to `exit`.
use advanced_operating_syste.Base.{
  ℕ, ◌+◌, ◌<◌, ◌≡◌, refl, ◌∙◌, sym, ap, subst, Bool, true, false, none, some, List, [], ◌∷◌, inl,
  inr, arith, ◌==◌, if◌then◌else◌, ◌>>=◌, Bool-cases, ◌∈◌, ==_iff, ==-refl,
}
use advanced_operating_syste.Base.Int.{ℤ, pos, negsuc, ltb_ℤ, ◌==ℤ◌}
use advanced_operating_syste.Queue.Order.{count}
use advanced_operating_syste.Process.State.{
  Kernel, Process, zombie, linked, state_of, remove, queue_del, find, has_pid,
}
use advanced_operating_syste.Process.Schedule.{exit}
use advanced_operating_syste.Process.Others.{for, waitpid, is_waiting, waitpid_loop}
use advanced_operating_syste.Process.Places.{
  listed, places, find-none, count_of_has, remove_absent, count-remove, has-places,
}
use advanced_operating_syste.Process.Switch.{IsValid, left_state, IsLeftIn}
use advanced_operating_syste.Process.Outcome.{Outcome, Outcome-switched}
use advanced_operating_syste.Process.Keeps.{PidsDiffer, Numbered, dead_not_ready}
use advanced_operating_syste.Process.Ending.{terminated, exit-Outcome}
use advanced_operating_syste.Process.Event.{exits, perform}
use advanced_operating_syste.Process.Reach.{Reach, here, next, Reach-Keeps}

-- A loop finds the element that alone passes the test.
find_only :
    (test : Process → Bool) (procs : ℕ → Process) (xs : List ℕ) (p : ℕ)
    → p ∈ xs
    → test (procs p) ≡ true
    → ((q : ℕ) → test (procs q) ≡ true → q ∈ xs → q ≡ p)
    → find test procs xs ≡ some p
unfolding find
find_only test procs [] p i hit only = cc
find_only test procs (x ∷ xs) p i hit only = elim (Bool-cases (test (procs x))) [
  | inl e ↦ rw e (ap some (only x e (ground arith)))
  | inr e ↦
      let later : p ∈ xs = elim (Bool-cases (p == x)) [
        | inl same ↦ absurd (ground (arith, hit, ap (λ q. test (procs q)) ((==_iff p x).0 same)))
        | inr other ↦ ground arith
      ] in
      rw e (find_only test procs xs p later hit (λ q h j. only q h (ground arith)))
]

positive_test : (a : ℤ) → ltb_ℤ (pos 0) a ≡ true → (a ==ℤ pos 0) ≡ false
positive_test a h = ground arith

==ℤ-refl : (a : ℤ) → (a ==ℤ a) ≡ true
==ℤ-refl (pos n) = ground arith
==ℤ-refl (negsuc n) = ground arith

-- The kernel after `queue_del` on a terminated process.
abbrev pub taken_away : ℕ → Kernel → Kernel
taken_away c t = record t { to_kill_list = remove c t.to_kill_list }

module _ (t : Kernel) (z c : ℕ) (v : IsValid t z) (i : c ∈ t.to_kill_list) where
  not_elsewhere : (count c t.process_list ≡ 0) × (count c t.sleeping_list ≡ 0)
  unfolding places listed
  not_elsewhere = (
    omega (arith, v.once c, count_of_has c t.to_kill_list i),
    omega (arith, v.once c, count_of_has c t.to_kill_list i),
  )

  linked_dead : linked t c ≡ true
  unfolding linked
  linked_dead = ground (arith, i)

  queue_del-dead : queue_del c t ≡ some (taken_away c t)
  unfolding queue_del
  queue_del-dead =
      rw
        (
          linked_dead,
          remove_absent c t.process_list not_elsewhere.0,
          remove_absent c t.sleeping_list not_elsewhere.1,
        )
        refl

  pub one_less : (p : ℕ) → places (taken_away c t) p + (if p == c then 1 else 0) ≡ places t p
  unfolding places listed
  one_less p = omega (arith, count-remove p c t.to_kill_list i)

  pub taken_away-IsValid : IsValid (taken_away c t) z
  unfolding listed
  taken_away-IsValid = record {
    running = v.running;
    once = λ p. omega (arith, one_less p, v.once p);
    sorted = v.sorted;
    alone = λ p h. v.alone p (omega (arith, h, count-remove p c t.to_kill_list i));
  }

  not_waiting : state_of t c ≡ zombie → is_waiting c t ≡ false
  unfolding is_waiting
  not_waiting e = rw (e, is_waiting) refl

  -- The loop, where the child has terminated.
  pub waitpid_loop-dead :
      (later : List Kernel)
      → state_of t c ≡ zombie
      → waitpid_loop c (t ∷ later) ≡ some (taken_away c t, (t.procs c).retval)
  unfolding waitpid_loop
  waitpid_loop-dead later e = rw (not_waiting e, queue_del-dead) refl

  module _ (differ : PidsDiffer t) where
    -- Nobody else has the pid.
    only : (q : ℕ) → has_pid (t.procs c).pid (t.procs q) ≡ true → 0 < places t q → q ≡ c
    unfolding places listed
    only q same h = differ q c h (omega (arith, count_of_has c t.to_kill_list i)) same

    not_ready : find (has_pid (t.procs c).pid) t.procs t.process_list ≡ none
    not_ready = find-none (has_pid (t.procs c).pid) t.procs t.process_list (λ p j.
        elim (Bool-cases (has_pid (t.procs c).pid (t.procs p))) [
          | inr miss ↦ miss
          | inl hit ↦
              let apart = dead_not_ready t z v c p i j in
              absurd (ground (arith, only p hit (has-places t p j)))
        ])

    found_dead : find (has_pid (t.procs c).pid) t.procs t.to_kill_list ≡ some c
    unfolding places listed
    found_dead =
        find_only (has_pid (t.procs c).pid) t.procs t.to_kill_list c i (==ℤ-refl (t.procs c).pid)
          (λ q hit j. only q hit (omega (arith, count_of_has q t.to_kill_list j)))

    -- The search of a process that has a child.
    pub waitpid-dead :
        (child : ℤ) (more : List ℤ)
        → ltb_ℤ (pos 0) (t.procs c).pid ≡ true
        → (t.procs z).children ≡ child ∷ more
        → waitpid (t.procs c).pid t ≡ some (for c)
    unfolding waitpid
    waitpid-dead child more positive has_child =
        rw (positive_test (t.procs c).pid positive, v.running, has_child, not_ready, found_dead)
          refl

-- What `exit` leaves, where it gives the processor away.
module _ (s u : Kernel) (c : ℕ) (retval : ℤ) (v : IsValid s c)
    (run : exit retval s ≡ some (u, true)) where
  exited :
      (u.procs c ≡ record (s.procs c) { retval = retval; state = zombie }) × (c ∈ u.to_kill_list)
  exited =
      let (z, t, w) =
        Outcome-switched
          (subst (Outcome (terminated c retval s) c) run (exit-Outcome s c retval v)) in
      let self : (terminated c retval s).procs c
          ≡ record (s.procs c) { retval = retval; state = zombie } =
        ground (arith, ==-refl c) in
      (
        t.left ∙ ap {A = Process} (λ p. record p { state = left_state p.state }) self,
        subst (λ st. IsLeftIn st c u) (ap (λ p. p.state) self) t.left_in,
      )

  exit_step : Reach s u
  unfolding perform
  exit_step = next (exits retval) here tt (ap (λ o. o >>= λ r. some r.0) run)

-- In a valid kernel in which pids differ and none is above the counter, the running process, with a
-- pid above 0, calls `exit(retval)`, which gives the processor away. Then follows any history of
-- clock interrupts and of calls of `start`, `exit`, `kill`, `chprio`, `unblock`, `block_send`,
-- `block_recv`, `bloque_sur_semaphore` and `passe_activable`, but none of `waitpid`, in which
-- `start` and `chprio` find what `Fits` says. If the process that then runs has a child and calls `waitpid` with the
-- pid of the one that has exited, it finds that process, its loop ends at once with `retval`, the
-- kernel is valid, and the terminated process is nowhere any more, while every other keeps its
-- place.
pub exit-waitpid :
    (s u t : Kernel) (c z : ℕ) (retval child : ℤ) (more : List ℤ) (later : List Kernel)
    → IsValid s c
    → Numbered s
    → ltb_ℤ (pos 0) (s.procs c).pid ≡ true
    → exit retval s ≡ some (u, true)
    → Reach u t
    → t.running ≡ some z
    → (t.procs z).children ≡ child ∷ more
    → (waitpid (s.procs c).pid t ≡ some (for c))
      × (k : Kernel) × (waitpid_loop c (t ∷ later) ≡ some (k, retval))
      × IsValid k z
      × ((p : ℕ) → places k p + (if p == c then 1 else 0) ≡ places t p)
exit-waitpid s u t c z retval child more later v n positive run reach runs_z has_child =
    let (proc, killed) = exited s u c retval v run in
    let ((_, valid_u), kept) = Reach-Keeps v (exit_step s u c retval v run) in
    let ((z', valid), kept') = Reach-Keeps valid_u reach in
    let valid_t : IsValid t z = record {
      running = runs_z;
      once = valid.once;
      sorted = valid.sorted;
      alone = valid.alone;
    } in
    let (same, i) = kept'.dead c (ap (λ p. p.state) proc, killed) in
    let now : t.procs c ≡ record (s.procs c) { retval = retval; state = zombie } = same ∙ proc in
    let pid : (t.procs c).pid ≡ (s.procs c).pid = ap (λ p. p.pid) now in
    let differ : PidsDiffer t = (kept'.numbers (kept.numbers n)).differ in
    (
      subst (λ a. waitpid a t ≡ some (for c)) pid
          (waitpid-dead t z c valid_t i differ child more
            (subst (λ a. ltb_ℤ (pos 0) a ≡ true) (sym pid) positive) has_child),
      taken_away c t,
      waitpid_loop-dead t z c valid_t i later (ap (λ p. p.state) now)
          ∙ ap (λ r. some (taken_away c t, r)) (ap (λ p. p.retval) now),
      taken_away-IsValid t z c valid_t i,
      one_less t z c valid_t i,
    )
