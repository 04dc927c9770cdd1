-- ===== src/Process/Steps.antt =====
-- What each call of process.c does in a valid kernel: it succeeds, and spares the terminated
-- processes.
use advanced_operating_syste.Base.{
  ℕ, ◌≡◌, refl, sym, subst, Bool, Option, some, List, arith, ◌==◌, if◌then◌else◌, ◌>>=◌, Bool-cases,
  Option-cases, inl, inr, ◌⊎◌, ap, ◌∈◌, ◌∙◌, ==_iff,
}
use advanced_operating_syste.Base.Int.{ℤ, pos, pos_part, neg_part, ◌+ℤ◌, leb_ℤ}
use advanced_operating_syste.Process.State.{
  Kernel, Process, chosen, activable, prio_of, state_of, has_pid, find,
}
use advanced_operating_syste.Process.Schedule.{change_found, passe_activable}
use advanced_operating_syste.Process.Calls.{
  Reply, Program, Allocations, new_process, is_startable, start, kill,
}
use advanced_operating_syste.Process.Others.{is_priority, chprio}
use advanced_operating_syste.Process.Places.{runs, listed, places, find-mem}
use advanced_operating_syste.Process.Switch.{IsValid}
use advanced_operating_syste.Process.Outcome.{Outcome, stays, switches}
use advanced_operating_syste.Process.Choice.{ordonnance-Outcome}
use advanced_operating_syste.Process.Ending.{
  IsValid-procs, terminated, terminated-IsValid, Answers, answers, change_found-some,
  change_found-none, killable, kill-Answers,
}
use advanced_operating_syste.Process.Keeps.{
  Numbered-fewer, Keeps, Keeps-refl, Keeps-change, Outcome-Keeps, dead_elsewhere, dead_not_ready,
}
use advanced_operating_syste.Process.Numbers.{Registered-Keeps, no_stack-Keeps}
use advanced_operating_syste.Process.Priority.{Reprioritized, chprio-Answers, chprio-Refuses}
use advanced_operating_syste.Queue.Insert.{insert}
use advanced_operating_syste.Queue.Order.{count}
use advanced_operating_syste.Process.Starting.{
  ready_process, start_rejected, start-Registered, start_no_stack,
}
use advanced_operating_syste.Process.Event.{
  starts, reprioritizes, kernel_of, Fits, Succeeds, after_change,
}

pub Outcome-Succeeds :
    {s : Kernel} {c : ℕ} {o : Option (Kernel × Bool)}
    → IsValid s c
    → Outcome s c o
    → Succeeds s (kernel_of o)
Outcome-Succeeds {s} {c} w (stays {u} t v) = (u, _, refl, v, Outcome-Keeps s c w (stays t v))
Outcome-Succeeds {s} {c} w (switches {u} z t v) =
    (u, z, refl, v, Outcome-Keeps s c w (switches z t v))

searched-Succeeds {ℓ} :
    {R : Type ℓ} (f : Bool → R) {s : Kernel} {c : ℕ} {o : Option (Kernel × Bool)}
    → IsValid s c
    → Outcome s c o
    → Succeeds s (kernel_of (o >>= λ r. some (r.0, f r.1)))
searched-Succeeds f {s} {c} w (stays {u} t v) = (u, _, refl, v, Outcome-Keeps s c w (stays t v))
searched-Succeeds f {s} {c} w (switches {u} z t v) =
    (u, z, refl, v, Outcome-Keeps s c w (switches z t v))

Answers-Succeeds :
    {s : Kernel} {c : ℕ} {v : ℤ} {o : Option (Kernel × Reply)}
    → IsValid s c
    → Answers s c v o
    → Succeeds s (kernel_of o)
Answers-Succeeds {s} {c} w (answers (stays {u} t v)) =
    (u, _, refl, v, Outcome-Keeps s c w (stays t v))
Answers-Succeeds {s} {c} w (answers (switches {u} z t v)) =
    (u, z, refl, v, Outcome-Keeps s c w (switches z t v))

fresh_pid :
    (pid : ℤ) (nom : List ℕ) (prio : ℤ) (base size : ℕ) (words : List ℕ)
    → (ready_process pid nom prio base size words).pid ≡ pid
unfolding ready_process new_process
fresh_pid pid nom prio base size words = refl

module _ (s : Kernel) (c : ℕ) (v : IsValid s c) where
  -- A loop that looks for a process and changes its state, though not to CHOSEN.
  pub change_found-Succeeds :
      (test : Process → Bool) (change : Process → Process)
      → ((p : Process) → (change p).prio ≡ p.prio)
      → ((p : Process) → (change p).pid ≡ p.pid)
      → ((p : Process) → (change p).state ≡ chosen → p.state ≡ chosen)
      → Succeeds s (kernel_of (change_found test change s))
  change_found-Succeeds test change same pids idle =
      elim (Option-cases (find test s.procs s.process_list)) [
        | inl e ↦
            subst (λ o. Succeeds s (kernel_of o)) (sym (change_found-none test change s e))
              (s, c, refl, v, Keeps-refl s)
        | inr (p, e) ↦
            let procs : ℕ → Process = λ q. if q == p then change (s.procs p) else s.procs q in
            let valid : IsValid (record s { procs = procs }) c =
              IsValid-procs s c procs v (λ q. ground (arith, same (s.procs p)))
                (λ q k. ground (arith, idle (s.procs p))) in
            let kept : Keeps s (record s { procs = procs }) =
              Keeps-change s p (change (s.procs p)) (pids (s.procs p))
                (λ q i. dead_not_ready s c v q p i (find-mem test s.procs s.process_list p e).0) in
            subst (λ o. Succeeds s (kernel_of o)) (sym (change_found-some test change s p e))
              (after_change s (record s { procs = procs }) _ kept
                (searched-Succeeds some valid
                  (ordonnance-Outcome (record s { procs = procs }) c valid)))
      ]

  pub kill-Succeeds : (pid : ℤ) → Succeeds s (kernel_of (kill pid s))
  unfolding kill
  kill-Succeeds pid = elim (Bool-cases (leb_ℤ pid (pos 0))) [
    | inl low ↦ rw low (s, c, refl, v, Keeps-refl s)
    | inr high ↦ elim (Option-cases (find (killable pid) s.procs s.process_list)) [
      | inl e ↦
          rw (high, kill, change_found-none (killable pid) _ s e) (s, c, refl, v, Keeps-refl s)
      | inr (p, e) ↦
          after_change s (terminated p (pos 0) s) _
            (Keeps-change s p _ refl
              (λ q i. dead_not_ready s c v q p i (find-mem _ s.procs s.process_list p e).0))
            (Answers-Succeeds (terminated-IsValid s c p (pos 0) v)
              ((kill-Answers s c pid v).2 p high e).1)
    ]
  ]

  pub wakes-IsValid : (pid : ℤ) → IsValid (passe_activable pid s) c
  unfolding passe_activable
  wakes-IsValid pid = elim (Option-cases (find (has_pid pid) s.procs s.process_list)) [
    | inl e ↦ rw (e, passe_activable) v
    | inr (p, e) ↦
        rw (e, passe_activable) (IsValid-procs s c _ v (λ q. ground arith) (λ q k. ground arith))
  ]

  pub wakes-Keeps : (pid : ℤ) → Keeps s (passe_activable pid s)
  unfolding passe_activable
  wakes-Keeps pid = elim (Option-cases (find (has_pid pid) s.procs s.process_list)) [
    | inl e ↦ rw (e, passe_activable) (Keeps-refl s)
    | inr (p, e) ↦
        rw (e, passe_activable)
          (Keeps-change s p _ refl
            (λ q i. dead_not_ready s c v q p i (find-mem _ s.procs s.process_list p e).0))
  ]

  pub own_change-Keeps :
      (q : Process)
      → q.pid ≡ (s.procs c).pid
      → Keeps s (record s { procs = λ r. if r == c then q else s.procs r })
  own_change-Keeps q same = Keeps-change s c q same (λ r i. dead_elsewhere s c v r i)

  pub start-Succeeds :
      (prog : Program) (nom : List ℕ) (ssize : ℕ) (prio : ℤ) (mem : Allocations)
      → Fits (starts prog nom ssize prio mem) s
      → Succeeds s (kernel_of (start prog nom ssize prio mem s))
  start-Succeeds prog nom ssize prio mem fits =
      elim (Bool-cases (is_startable (s.pidmax +ℤ pos 1) prio)) [
        | inr bad ↦
            subst (λ o. Succeeds s (kernel_of o))
              (sym (start_rejected prog nom ssize prio mem s bad)) (s, c, refl, v, Keeps-refl s)
        | inl good ↦
            let (p, at_p, new, short, rest) = fits good in
            elim rest [
              | inl no_stack ↦
                  let (k, run, valid, counter, lists, same, others) =
                    start_no_stack prog nom ssize prio mem s c p v new good short at_p no_stack in
                  subst (λ o. Succeeds s (kernel_of o)) (sym run)
                    (k, c, refl, valid, no_stack-Keeps s k p new counter lists same others)
              | inr (base, child, at_base, at_child, room) ↦
                  let (words, k, _, registered, result) =
                    start-Registered prog nom ssize prio mem s c p base child v new good short room
                      at_p at_base at_child in
                  let kept : Keeps s k =
                    Registered-Keeps s c p _ k v new (fresh_pid _ nom prio base _ words)
                      registered in
                  elim result [
                    | inl (_, a) ↦ after_change s k _ kept (Answers-Succeeds registered.valid a)
                    | inr (_, run) ↦
                        subst (λ o. Succeeds s (kernel_of o)) (sym run)
                          (k, c, refl, registered.valid, kept)
                  ]
            ]
      ]

  Reprioritized-Keeps :
      (p new : ℕ) (k : Kernel)
      → ((state_of s p ≡ activable) ⊎ (state_of s p ≡ chosen))
      → Reprioritized s c p new k
      → Keeps s k
  unfolding places listed
  Reprioritized-Keeps p new k lives r = record {
    dead = λ q w. (
      r.others q (elim (Bool-cases (q == p)) [
        | inr other ↦ other
        | inl same ↦
            let e : state_of s q ≡ state_of s p = ap (state_of s) ((==_iff q p).0 same) in
            elim lives [
              | inl ready ↦ ground (arith, e, ready, w.0)
              | inr runs ↦ ground (arith, e, runs, w.0)
            ]
      ]),
      subst (λ l. q ∈ l) (sym r.same_dead) w.1,
    );
    numbers =
        Numbered-fewer s k
          (λ q. omega (
            arith,
            r.same_ready q,
            ap (count q) r.same_sleeping,
            ap (count q) r.same_dead,
            ap (λ o. runs o q) (r.valid.running ∙ sym v.running),
          ))
          (λ q h. elim (Bool-cases (q == p)) [
            | inr other ↦ ap (λ x. x.pid) (r.others q other)
            | inl same ↦
                subst (λ x. (k.procs x).pid ≡ (s.procs x).pid) (sym ((==_iff q p).0 same))
                  (ap (λ x. x.pid) r.process)
          ])
          (omega (arith, ap pos_part r.same_pidmax, ap neg_part r.same_pidmax));
  }

  pub chprio-Succeeds :
      (pid newprio : ℤ)
      → Fits (reprioritizes pid newprio) s
      → Succeeds s (kernel_of (chprio pid newprio s))
  chprio-Succeeds pid newprio fits =
      let (refused, missing, _) = chprio-Refuses s c pid newprio v in
      elim (Bool-cases (is_priority newprio)) [
        | inr out ↦
            subst (λ o. Succeeds s (kernel_of o)) (sym (refused out)) (s, c, refl, v, Keeps-refl s)
        | inl good ↦
            elim (Option-cases (find (has_pid pid) s.procs (insert (prio_of s) c s.process_list))) [
              | inl e ↦
                  subst (λ o. Succeeds s (kernel_of o)) (sym (missing good e))
                    (s, c, refl, v, Keeps-refl s)
              | inr (p, e) ↦
                  let lives = fits c p v.running e in
                  let (k, r, a) = chprio-Answers s c p pid newprio v good e lives in
                  after_change s k _ (Reprioritized-Keeps p (pos_part newprio) k lives r)
                    (Answers-Succeeds r.valid a)
            ]
      ]
