-- ===== src/Start/First.antt =====
-- kernel/start.c: the first two processes.
use advanced_operating_syste.Base.{
  ℕ, ◌≤◌, ◌≡◌, refl, ◌∙◌, ap, subst, Option, some, List, [], ◌∷◌, arith, Bool, true, false, ◌==◌,
  inl, inr, Ends, All, ◌∈◌,
}
use advanced_operating_syste.Base.Int.{ℤ, pos, ◌+ℤ◌}
use advanced_operating_syste.Queue.Insert.{insert}
use advanced_operating_syste.Process.State.{Kernel, Process, chosen, is_zombie, state_of, prio_of}
use advanced_operating_syste.Process.Calls.{
  Program, Allocations, Reply, suspended, start, stack_size, new_process, is_startable,
  init_process_stack,
}
use advanced_operating_syste.Process.Places.{runs, places}
use advanced_operating_syste.Process.Switch.{IsValid}
use advanced_operating_syste.Process.Outcome.{stays, switches, Switches}
use advanced_operating_syste.Process.Ending.{Answers, answers}
use advanced_operating_syste.Process.Starting.{ready_process, start-Registered}
use advanced_operating_syste.Process.Boot.{boot, init_process_stack-IsValid}
use advanced_operating_syste.Start.{test6_name}

-- The kernel after the two calls: the new process runs, under the pid 1, and the idle one is ready.
pub record Running (p q : ℕ) (u : Kernel) : Type 0 where
  pub valid : IsValid u q
  pub state : state_of u q ≡ chosen
  pub pid : (u.procs q).pid ≡ pos 1
  pub prio : prio_of u q ≡ 128
  pub idle_pid : (u.procs p).pid ≡ pos 0
  pub idle_prio : prio_of u p ≡ 1
  pub idle_place : places u p ≡ 1

clash : {b : Bool} → b ≡ false → b ≡ true → ⊥
clash e f = cc

-- The scheduler gives the processor to the only ready process.
taken :
    (k : Kernel) (p q : ℕ) (o : Option (Kernel × Reply))
    → k.process_list ≡ q ∷ []
    → is_zombie (state_of k q) ≡ false
    → state_of k p ≡ chosen
    → (k.procs q).pid ≡ pos 1
    → prio_of k q ≡ 128
    → (k.procs p).pid ≡ pos 0
    → prio_of k p ≡ 1
    → places k p ≡ 1
    → Answers k p (pos 1) o
    → Ends (λ r. (r.1 ≡ suspended) × Running p q r.0) o
taken k p q _ list alive busy pid prio idle_pid idle_prio place (answers (stays s v)) =
    let dead = subst (All (λ p. is_zombie (state_of k p) ≡ true)) list s.all_dead in
    absurd (clash alive dead.0)
taken k p q _ list alive busy pid prio idle_pid idle_prio place (answers (switches {u = u} z s v)) =
    let only : z ≡ q = ground (arith, subst (λ xs. z ∈ xs) list s.ready) in
    let s = subst (λ x. Switches k p x u) only s in
    (
      _,
      refl,
      (
        refl,
        record {
          valid = subst (λ x. IsValid u x) only v;
          state = s.became;
          pid = s.same_pid q ∙ pid;
          prio = s.same_prio q ∙ prio;
          idle_pid = s.same_pid p ∙ idle_pid;
          idle_prio = s.same_prio p ∙ idle_prio;
          idle_place = ground (arith, s.kept p, busy, place);
        },
      ),
    )

second_pid : (s : Kernel) → s.pidmax ≡ pos 0 → s.pidmax +ℤ pos 1 ≡ pos 1
unfolding ◌+ℤ◌
second_pid s last = rw last refl

alone : (prio : ℕ → ℕ) (q : ℕ) → insert prio q [] ≡ q ∷ []
unfolding insert
alone prio q = refl

fresh_fields :
    (n : ℤ) (base : ℕ) (words : List ℕ)
    → (let fresh = ready_process n test6_name (pos 128) base (stack_size 1024) words in
        (is_zombie fresh.state ≡ false) × (fresh.pid ≡ n) × (fresh.prio ≡ 128))
unfolding ready_process new_process
fresh_fields n base words = (refl, refl, refl)

somewhere : (s : Kernel) (p : ℕ) → s.running ≡ some p → 1 ≤ places s p
unfolding places runs
somewhere s p e = ground (arith, ap (λ o. runs o p) e)

-- With memory for both, the idle process and then the first test process start: the call of `start`
-- does not return, since the new process has the higher priority and runs at once.
pub first_two :
    (idle test6 : Program) (procs : ℕ → Process) (mem mem1 : Allocations) (p base q base1 child : ℕ)
    → mem.process_at ≡ some p
    → mem.stack_at ≡ some base
    → mem1.process_at ≡ some q
    → mem1.stack_at ≡ some base1
    → mem1.child_at ≡ some child
    → (q == p) ≡ false
    → (s : Kernel) × (init_process_stack idle mem (boot procs) ≡ some s)
      × Ends
          (λ r. (r.1 ≡ suspended) × Running p q r.0)
          (start test6 test6_name 1024 (pos 128) mem1 s)
first_two idle test6 procs mem mem1 p base q base1 child at_p at_base at_q at_base1 at_child apart =
    let (s, run, v, busy, pid, prio, last, empty, nobody) =
      init_process_stack-IsValid idle procs mem p base at_p at_base in
    let next = second_pid s last in
    let (words, k, built, r, result) =
      start-Registered test6 test6_name 1024 (pos 128) mem1 s p q base1 child v (nobody q apart)
        (ap (λ n. is_startable n (pos 128)) next) (omega arith) (omega arith) at_q at_base1
        at_child in
    let fresh =
      ready_process (s.pidmax +ℤ pos 1) test6_name (pos 128) base1 (stack_size 1024) words in
    let list : k.process_list ≡ q ∷ [] =
      r.place ∙ ap (insert (prio_of k) q) empty ∙ alone (prio_of k) q in
    let parent = r.parent in
    let call = start test6 test6_name 1024 (pos 128) mem1 s in
    let (state, number, level) = fresh_fields (s.pidmax +ℤ pos 1) base1 words in
    let here : places k p ≡ 1 =
      ground (arith, r.one_more p, v.once p, somewhere s p v.running, apart) in
    elim result [
      | inl (higher, a) ↦ (
        s,
        run,
        taken k p q call list (ap (λ x. is_zombie x.state) r.process ∙ state)
            (ap (λ x. x.state) parent ∙ busy) (ap (λ x. x.pid) r.process ∙ number ∙ next)
            (ap (λ x. x.prio) r.process ∙ level) (ap (λ x. x.pid) parent ∙ pid)
            (ap (λ x. x.prio) parent ∙ prio) here (subst (λ n. Answers k p n call) next a),
      )
      | inr (lower, e) ↦ absurd (omega (arith, lower, prio))
    ]
