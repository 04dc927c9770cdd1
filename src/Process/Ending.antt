-- ===== src/Process/Ending.antt =====
-- `exit`, `kill`, and the calls by which a process blocks itself.
use advanced_operating_syste.Base.{
  ℕ, ◌≡◌, refl, sym, subst, Bool, true, false, Bool-cases, inl, inr, not, ◌&&◌, Option, none, some,
  arith, ◌==◌, if◌then◌else◌, ◌>>=◌,
}
use advanced_operating_syste.Base.Int.{ℤ, pos, negsuc, leb_ℤ}
use advanced_operating_syste.Process.State.{
  Kernel, Process, chosen, zombie, prio_of, state_of, is_zombie, find, has_pid,
}
use advanced_operating_syste.Process.Schedule.{ordonnance, change_found, exit}
use advanced_operating_syste.Process.Calls.{Reply, returned, reply, kill}
use advanced_operating_syste.Process.Places.{listed, places}
use advanced_operating_syste.Process.Switch.{IsValid, Sorted-ext}
use advanced_operating_syste.Process.Choice.{ordonnance-Outcome}
use advanced_operating_syste.Process.Outcome.{Outcome, stays, switches}

-- Memory may change under the scheduler as long as priorities stay and nobody becomes CHOSEN.
pub IsValid-procs :
    (s : Kernel) (c : ℕ) (procs : ℕ → Process)
    → IsValid s c
    → ((q : ℕ) → (procs q).prio ≡ prio_of s q)
    → ((q : ℕ) → (procs q).state ≡ chosen → state_of s q ≡ chosen)
    → IsValid (record s { procs = procs }) c
unfolding places listed
IsValid-procs s c procs v same back = record {
  running = v.running;
  once = v.once;
  sorted = Sorted-ext (prio_of s) (λ q. (procs q).prio) s.process_list same v.sorted;
  alone = λ p h e. v.alone p h (back p e);
}

-- The kernel in which `p` has terminated with the given value.
abbrev pub terminated : ℕ → ℤ → Kernel → Kernel
terminated p v s = record s {
  procs = λ q. if q == p then record (s.procs p) { retval = v; state = zombie } else s.procs q;
}

pub terminated-IsValid : (s : Kernel) (c p : ℕ) (v : ℤ) → IsValid s c → IsValid (terminated p v s) c
terminated-IsValid s c p v valid =
    IsValid-procs s c _ valid (λ q. ground arith) (λ q e. ground arith)

-- In a valid kernel `exit` runs the scheduler, with all that it guarantees, on the kernel in which
-- the running process has terminated.
pub exit-Outcome :
    (s : Kernel) (c : ℕ) (retval : ℤ)
    → IsValid s c
    → Outcome (terminated c retval s) c (exit retval s)
unfolding exit
exit-Outcome s c retval v =
    subst
      (λ o. Outcome (terminated c retval s) c (
        o >>= λ c. ordonnance (record s {
          procs = λ q.
              if q == c then record (s.procs c) { retval = retval; state = zombie } else s.procs q;
        })))
      (sym v.running)
      (ordonnance-Outcome (terminated c retval s) c (terminated-IsValid s c c retval v))

-- A call that runs the scheduler and then returns `v`.
pub data Answers (s : Kernel) (c : ℕ) (v : ℤ) : Option (Kernel × Reply) → Type 0 where
  answers :
      {u : Kernel} {switched : Bool}
      → Outcome s c (some (u, switched))
      → Answers s c v (some (reply (u, switched) v))

-- A change of the process found, then the scheduler.
pub change_found-some :
    (test : Process → Bool) (change : Process → Process) (s : Kernel) (p : ℕ)
    → find test s.procs s.process_list ≡ some p
    → change_found test change s ≡ (
        ordonnance (record s { procs = λ q. if q == p then change (s.procs p) else s.procs q })
        >>= λ r. some (r.0, some r.1))
unfolding change_found
change_found-some test change s p e = rw (e, change_found) refl

pub change_found-none :
    (test : Process → Bool) (change : Process → Process) (s : Kernel)
    → find test s.procs s.process_list ≡ none
    → change_found test change s ≡ some (s, none)
unfolding change_found
change_found-none test change s e = rw (e, change_found) refl

pub Answers-Outcome :
    {s : Kernel} {c : ℕ} (v : ℤ) {o : Option (Kernel × Bool)}
    → Outcome s c o
    → Answers s c v (o >>= λ r. some (reply r v))
Answers-Outcome v (stays t w) = answers (stays t w)
Answers-Outcome v (switches z t w) = answers (switches z t w)

abbrev pub killable : ℤ → Process → Bool
killable pid p = has_pid pid p && not (is_zombie p.state)

kill_found :
    (s : Kernel) (p : ℕ) (pid : ℤ)
    → leb_ℤ pid (pos 0) ≡ false
    → find (killable pid) s.procs s.process_list ≡ some p
    → kill pid s ≡ (ordonnance (terminated p (pos 0) s) >>= λ r. some (reply r (pos 0)))
unfolding kill
kill_found s p pid positive e =
    rw (positive, kill, change_found-some (killable pid) _ s p e) (ground arith)

-- In a valid kernel, `kill` returns -1 and changes nothing for a pid that is not above 0, and for
-- one that no ready process has which has not terminated. Otherwise the process that it finds
-- terminates with the value 0, nothing else of it and of the others changes, and the scheduler runs
-- on that kernel, which is valid, with all that it guarantees; the answer is 0, unless the
-- scheduler gives the processor away.
pub kill-Answers :
    (s : Kernel) (c : ℕ) (pid : ℤ)
    → IsValid s c
    → (leb_ℤ pid (pos 0) ≡ true → kill pid s ≡ some (s, returned (negsuc 0)))
      × (find (killable pid) s.procs s.process_list ≡ none
          → kill pid s ≡ some (s, returned (negsuc 0)))
      × ((p : ℕ)
          → leb_ℤ pid (pos 0) ≡ false
          → find (killable pid) s.procs s.process_list ≡ some p
          → IsValid (terminated p (pos 0) s) c
            × Answers (terminated p (pos 0) s) c (pos 0) (kill pid s))
unfolding kill
kill-Answers s c pid v = (
  λ low. rw low refl,
  λ e. elim (Bool-cases (leb_ℤ pid (pos 0))) [
    | inl low ↦ rw low refl
    | inr high ↦ rw (high, kill, change_found-none (killable pid) _ s e) refl
  ],
  λ p high e. (
    terminated-IsValid s c p (pos 0) v,
    subst (Answers (terminated p (pos 0) s) c (pos 0)) (sym (kill_found s p pid high e)) (
        Answers-Outcome (pos 0)
          (ordonnance-Outcome (terminated p (pos 0) s) c (terminated-IsValid s c p (pos 0) v))),
  ),
)
