-- ===== src/Process/Priority.antt =====
-- `chprio`: the errors, and what a successful call does.
use advanced_operating_syste.Base.{
  ℕ, ◌≡◌, refl, ◌∙◌, sym, ap, subst, true, false, none, some, inl, inr, arith, ◌==◌, ◌>>=◌, ◌∈◌,
  ◌⊎◌,
}
use advanced_operating_syste.Base.Int.{ℤ, pos, negsuc, pos_part}
use advanced_operating_syste.Queue.Insert.{insert}
use advanced_operating_syste.Queue.Order.{count}
use advanced_operating_syste.Process.State.{
  Kernel, chosen, activable, zombie, is_zombie, prio_of, state_of, update, add_process_list,
  queue_del, find, has_pid,
}
use advanced_operating_syste.Process.Schedule.{ordonnance}
use advanced_operating_syste.Process.Calls.{returned, reply}
use advanced_operating_syste.Process.Others.{is_priority, replace, chprio, chprio_search}
use advanced_operating_syste.Process.Places.{runs, listed, add_process_list-some, find-mem}
use advanced_operating_syste.Process.Switch.{IsValid}
use advanced_operating_syste.Process.Choice.{ordonnance-Outcome}
use advanced_operating_syste.Process.Ending.{Answers, Answers-Outcome}
use advanced_operating_syste.Process.Relink.{
  searched, given, replaced, moved, own, unlisted, unlink-searched, same_state, moved-IsValid,
  replace-activable, unlink-replaced, own_caller, replace-chosen, unlink-given, own-IsValid,
  listed-moved,
}

module _ (s : Kernel) (c : ℕ) (v : IsValid s c) where
  module _ (pid newprio : ℤ) where
    pub searching :
        is_priority newprio ≡ true
        → chprio pid newprio s ≡ chprio_search c pid newprio (searched s c v)
    unfolding chprio
    searching in_range = rw in_range (
        ap (λ o. o >>= λ c. add_process_list c s >>= chprio_search c pid newprio) v.running
        ∙ ap (λ o. o >>= chprio_search c pid newprio) (add_process_list-some s c (unlisted s c v)))

    pub chprio_missing :
        find (has_pid pid) s.procs (searched s c v).process_list ≡ none
        → chprio_search c pid newprio (searched s c v) ≡ some (s, returned (negsuc 0))
    unfolding chprio_search
    chprio_missing e = rw (e, chprio_search, unlink-searched s c v) refl

    module _ (p : ℕ) (e : find (has_pid pid) s.procs (searched s c v).process_list ≡ some p) where
      found : p ∈ (searched s c v).process_list
      found = (find-mem (has_pid pid) s.procs (searched s c v).process_list p e).0

      abbrev changed : Kernel
      changed = given s c v p (pos_part newprio) found

      same_zombie : is_zombie (state_of changed p) ≡ is_zombie (state_of s p)
      same_zombie = ap is_zombie (same_state s c v p (pos_part newprio) found p)

      chprio_zombie :
          is_zombie (state_of s p) ≡ true
          → chprio_search c pid newprio (searched s c v)
            ≡ some (own s c v p (pos_part newprio) found, returned (negsuc 0))
      unfolding chprio_search
      chprio_zombie dead =
          rw (e, chprio_search, same_zombie ∙ dead, unlink-given s c v p (pos_part newprio) found)
            refl

      chprio_runs :
          (k l : Kernel)
          → is_zombie (state_of s p) ≡ false
          → replace p changed ≡ some k
          → queue_del c k ≡ some l
          → chprio_search c pid newprio (searched s c v)
            ≡ (ordonnance l >>= λ r. some (reply r (pos (prio_of s p))))
      unfolding chprio_search
      chprio_runs k l alive placed unlinked =
          rw (e, chprio_search, same_zombie ∙ alive, placed) (rw unlinked refl)

-- The kernel in which the scheduler runs: one process has a new priority, and nothing else has
-- changed but the order of the ready list: each list has the processes that it had.
pub record Reprioritized (s : Kernel) (c p new : ℕ) (k : Kernel) : Type 0 where
  pub valid : IsValid k c
  pub process : k.procs p ≡ record (s.procs p) { prio = new }
  pub others : (q : ℕ) → (q == p) ≡ false → k.procs q ≡ s.procs q
  pub same_ready : (q : ℕ) → count q k.process_list ≡ count q s.process_list
  pub same_sleeping : k.sleeping_list ≡ s.sleeping_list
  pub same_dead : k.to_kill_list ≡ s.to_kill_list
  pub same_pidmax : k.pidmax ≡ s.pidmax

module _ (s : Kernel) (c p : ℕ) (pid newprio : ℤ) (v : IsValid s c)
    (in_range : is_priority newprio ≡ true)
    (e : find (has_pid pid) s.procs (insert (prio_of s) c s.process_list) ≡ some p) where
  abbrev pub Succeeds : Type 0
  Succeeds =
      (k : Kernel) × Reprioritized s c p (pos_part newprio) k
      × Answers k c (pos (prio_of s p)) (chprio pid newprio s)

  abbrev i : p ∈ (searched s c v).process_list
  i = found s c v pid newprio p e

  answer :
      (k l : Kernel)
      → is_zombie (state_of s p) ≡ false
      → replace p (changed s c v pid newprio p e) ≡ some k
      → queue_del c k ≡ some l
      → IsValid l c
      → Answers l c (pos (prio_of s p)) (chprio pid newprio s)
  answer k l alive placed unlinked valid =
      subst (Answers l c (pos (prio_of s p)))
        (sym (
          searching s c v pid newprio in_range
          ∙ chprio_runs s c v pid newprio p e k l alive placed unlinked))
        (Answers-Outcome (pos (prio_of s p)) (ordonnance-Outcome l c valid))

  chprio-ready : state_of s p ≡ activable → Succeeds
  unfolding listed
  chprio-ready ready =
      let k = moved s c v p (pos_part newprio) i in
      let valid : IsValid k c = moved-IsValid s c v p (pos_part newprio) i in
      (
        k,
        record {
          valid = valid;
          process = ground arith;
          others = λ q n. ground arith;
          same_ready = λ q. omega (arith, listed-moved s c v p (pos_part newprio) i q);
          same_sleeping = refl;
          same_dead = refl;
          same_pidmax = refl;
        },
        answer (replaced s c v p (pos_part newprio) i) k (ap is_zombie ready)
            (replace-activable s c v p (pos_part newprio) i ready)
            (unlink-replaced s c v p (pos_part newprio) i) valid,
      )

  chprio-self : state_of s p ≡ chosen → Succeeds
  chprio-self runs =
      let k = own s c v p (pos_part newprio) i in
      let valid : IsValid k c =
        own-IsValid s c v p (pos_part newprio) i (own_caller s c v p (pos_part newprio) i runs) in
      (
        k,
        record {
          valid = valid;
          process = ground arith;
          others = λ q n. ground arith;
          same_ready = λ q. refl;
          same_sleeping = refl;
          same_dead = refl;
          same_pidmax = refl;
        },
        answer (given s c v p (pos_part newprio) i) k (ap is_zombie runs)
            (replace-chosen s c v p (pos_part newprio) i runs)
            (unlink-given s c v p (pos_part newprio) i) valid,
      )

  -- In a valid kernel, `chprio` with a priority from 1 to MAXPRIO finds a process that is ready or
  -- runs: that process has the new priority, nothing else of any process changes, each stays in its
  -- list, the ready list is in order again, the scheduler runs on that kernel, and the old priority
  -- is returned.
  pub chprio-Answers : ((state_of s p ≡ activable) ⊎ (state_of s p ≡ chosen)) → Succeeds
  chprio-Answers (inl ready) = chprio-ready ready
  chprio-Answers (inr runs) = chprio-self runs

-- In a valid kernel, `chprio` returns -1 in three cases. With a priority out of range, or where no
-- process that is ready or runs has the pid, it changes nothing. Where the process found has
-- terminated, the call changes the priority of that process all the same, and leaves it where it is
-- in the list.
pub chprio-Refuses :
    (s : Kernel) (c : ℕ) (pid newprio : ℤ) (v : IsValid s c)
    → (is_priority newprio ≡ false → chprio pid newprio s ≡ some (s, returned (negsuc 0)))
      × (is_priority newprio ≡ true
          → find (has_pid pid) s.procs (insert (prio_of s) c s.process_list) ≡ none
          → chprio pid newprio s ≡ some (s, returned (negsuc 0)))
      × ((p : ℕ)
          → is_priority newprio ≡ true
          → find (has_pid pid) s.procs (insert (prio_of s) c s.process_list) ≡ some p
          → state_of s p ≡ zombie
          → chprio pid newprio s
            ≡ some (
              record s {
                procs = update s.procs p (record (s.procs p) { prio = pos_part newprio });
              },
              returned (negsuc 0),
            ))
unfolding chprio
chprio-Refuses s c pid newprio v = (
  λ out. rw out refl,
  λ good e. searching s c v pid newprio good ∙ chprio_missing s c v pid newprio e,
  λ p good e dead.
      searching s c v pid newprio good ∙ chprio_zombie s c v pid newprio p e (ap is_zombie dead),
)
