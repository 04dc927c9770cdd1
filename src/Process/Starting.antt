-- ===== src/Process/Starting.antt =====
-- `start`: its errors, and what a successful call does.
use advanced_operating_syste.Base.{
  ℕ, ◌+◌, ◌-◌, ◌*◌, ◌%◌, ◌^◌, ◌≤◌, ◌<◌, ◌≡◌, refl, ◌∙◌, sym, ap, subst, Bool, true, false, Option,
  none, some, List, [], ◌∷◌, inl, inr, arith, ltb, if◌then◌else◌, ◌>>=◌, Bool-cases, lt→ltb, ltb→lt,
  ltb→le, ◌⊎◌, length, ◌==◌,
}
use advanced_operating_syste.Base.Int.{ℤ, pos, negsuc, pos_part, ◌+ℤ◌}
use advanced_operating_syste.Queue.Order.{All-others, Sorted-members}
use advanced_operating_syste.Process.State.{Kernel, Process, chosen, activable, prio_of, update}
use advanced_operating_syste.Process.Schedule.{ordonnance}
use advanced_operating_syste.Process.Calls.{
  Program, Allocations, Reply, returned, reply, initial_stack, stack_size, is_startable, start,
  start_under, register, new_process, first_state, max_name_length,
}
use advanced_operating_syste.Process.Places.{listed, places, add_process_list-some}
use advanced_operating_syste.Process.Choice.{ordonnance-Outcome}
use advanced_operating_syste.Process.Ending.{Answers, Answers-Outcome}
use advanced_operating_syste.Process.Switch.{IsValid}
use advanced_operating_syste.Process.Stack.{initial_stack_frame, stack_block-some, stack_block-none}
use advanced_operating_syste.Process.Register.{
  registered, Registered, registered-Registered, with_parent, unlisted, other, prio_elsewhere,
}

-- A call with a priority out of range, or after the 64th process, fails and changes nothing.
pub start_rejected :
    (prog : Program) (nom : List ℕ) (ssize : ℕ) (prio : ℤ) (mem : Allocations) (s : Kernel)
    → is_startable (s.pidmax +ℤ pos 1) prio ≡ false
    → start prog nom ssize prio mem s ≡ some (s, returned (negsuc 0))
unfolding start start_under
start_rejected prog nom ssize prio mem s bad = rw bad refl

first_state_activable : (xs : List ℕ) (c : ℕ) → first_state xs (some c) ≡ activable
unfolding first_state
first_state_activable [] c = refl
first_state_activable (x ∷ xs) c = refl

-- Without memory for the stack, in a valid kernel and with other arguments as `start` wants them,
-- the call returns -1, but it keeps the pid and the structure: only the memory of that structure
-- and the counter of pids have changed. The scheduler's invariant holds still.
pub start_no_stack :
    (prog : Program) (nom : List ℕ) (ssize : ℕ) (prio : ℤ) (mem : Allocations) (s : Kernel)
    (c p : ℕ)
    → IsValid s c
    → places s p ≡ 0
    → is_startable (s.pidmax +ℤ pos 1) prio ≡ true
    → length nom < max_name_length
    → mem.process_at ≡ some p
    → mem.stack_at ≡ none
    → (k : Kernel) × (start prog nom ssize prio mem s ≡ some (k, returned (negsuc 0)))
      × IsValid k c
      × (k.pidmax ≡ s.pidmax +ℤ pos 1)
      × (k.to_kill_list ≡ s.to_kill_list)
      × ((q : ℕ) → places k q ≡ places s q)
      × ((q : ℕ) → (q == p) ≡ false → k.procs q ≡ s.procs q)
unfolding start start_under places listed
start_no_stack prog nom ssize prio mem s c p v new startable short at_p no_stack =
    let pid = s.pidmax +ℤ pos 1 in
    let fresh = new_process pid nom activable in
    let k : Kernel = record s { pidmax = pid; procs = update s.procs p fresh } in
    (
      k,
      ap (λ o. start_under o prog nom ssize prio mem s) v.running
          ∙ simp (
            startable,
            at_p,
            lt→ltb (length nom) 64 short,
            stack_block-none mem (stack_size ssize) no_stack,
            first_state_activable,
          ),
      record {
        running = v.running;
        once = v.once;
        sorted =
            Sorted-members (prio_of s) (prio_of k) s.process_list
              (All-others (λ q. prio_of k q ≡ prio_of s q) p s.process_list (λ q n. ground arith)
                (omega (arith, new)))
              v.sorted;
        alone = λ q h e. v.alone q h (ground (arith, new));
      },
      refl,
      refl,
      λ q. refl,
      λ q n. ground arith,
    )

-- What `start` puts into the structure of the new process.
unfoldable pub ready_process : ℤ → List ℕ → ℤ → ℕ → ℕ → List ℕ → Process
ready_process pid nom prio base size words = record (new_process pid nom activable) {
  prio = pos_part prio;
  saved_sp = (base + 4 * (size - 3)) % 2 ^ 32;
  wake_up_time = negsuc 0;
  process_stack = (base, words);
}

-- The call on a valid kernel: the scheduler runs if the new process has the higher priority.
register-some :
    (s : Kernel) (c p child : ℕ) (fresh : Process) (mem : Allocations)
    → IsValid s c
    → places s p ≡ 0
    → mem.child_at ≡ some child
    → (fresh.state ≡ chosen → ⊥)
    → register (some c) p mem (record s { pidmax = fresh.pid; procs = update s.procs p fresh }) ≡ (
        let k = registered s c p fresh in
        if ltb (prio_of k c) (prio_of k p) then ordonnance k else some (k, false))
unfolding register listed
register-some s c p child fresh mem v new e idle =
    rw (e, register)
      (ap
        (λ o. o >>= λ k. if ltb (prio_of k c) (prio_of k p) then ordonnance k else some (k, false))
        (add_process_list-some (with_parent s c p fresh) p (unlisted s c p fresh v new idle)))

module _ (prog : Program) (nom : List ℕ) (ssize : ℕ) (prio : ℤ) (mem : Allocations) (s : Kernel)
    (c p base child : ℕ) (v : IsValid s c) (new : places s p ≡ 0)
    (startable : is_startable (s.pidmax +ℤ pos 1) prio ≡ true)
    (short : length nom < max_name_length) (fits : ssize < 2 ^ 30) (at_p : mem.process_at ≡ some p)
    (at_base : mem.stack_at ≡ some base) (at_child : mem.child_at ≡ some child) where
  abbrev pub pid : ℤ
  pid = s.pidmax +ℤ pos 1

  start_runs :
      (words : List ℕ)
      → initial_stack prog (stack_size ssize) ≡ some words
      → let fresh = ready_process pid nom prio base (stack_size ssize) words in
        start prog nom ssize prio mem s ≡ (
          register (some c) p mem (record s { pidmax = pid; procs = update s.procs p fresh })
          >>= λ r. some (reply r pid))
  unfolding start start_under ready_process stack_size
  start_runs words e =
      ap (λ o. start_under o prog nom ssize prio mem s) v.running
      ∙ simp (
        startable,
        at_p,
        lt→ltb (length nom) 64 short,
        stack_block-some mem (stack_size ssize) base (ground arith) (ground arith) at_base,
        e,
        first_state_activable,
      )

  module _ (words : List ℕ) (built : initial_stack prog (stack_size ssize) ≡ some words) where
    abbrev fresh : Process
    fresh = ready_process pid nom prio base (stack_size ssize) words

    fresh_idle : fresh.state ≡ chosen → ⊥
    unfolding ready_process new_process
    fresh_idle e = cc

    abbrev started : Kernel
    started = registered s c p fresh

    prios : (prio_of started c ≡ prio_of s c) × (prio_of started p ≡ pos_part prio)
    unfolding ready_process
    prios = (
      prio_elsewhere s c p fresh v new fresh_idle c
          (ground (arith, other s c p fresh v new fresh_idle)),
      ground arith,
    )

    -- What `start` returns, by whether the new process has the higher priority.
    abbrev answer : Bool → Option (Kernel × Reply)
    answer b = (if b then ordonnance started else some (started, false)) >>= λ r. some (reply r pid)

    start_result :
        (b : Bool)
        → ltb (prio_of started c) (prio_of started p) ≡ b
        → start prog nom ssize prio mem s ≡ answer b
    unfolding register ready_process new_process
    start_result b e =
        start_runs words built
        ∙ ap (λ o. o >>= λ r. some (reply r pid))
            (register-some s c p child fresh mem v new at_child fresh_idle)
        ∙ ap answer e

    start-started :
        Registered s c p fresh started
        × (((prio_of s c < pos_part prio) × Answers started c pid (start prog nom ssize prio mem s))
            ⊎ ((pos_part prio ≤ prio_of s c)
                × (start prog nom ssize prio mem s ≡ some (started, returned pid))))
    start-started = (
      registered-Registered s c p fresh v new fresh_idle,
      elim (Bool-cases (ltb (prio_of started c) (prio_of started p))) [
        | inl higher ↦ inl (
          omega (arith, prios, ltb→lt (prio_of started c) (prio_of started p) higher),
          subst (Answers started c pid) (sym (start_result true higher)) (
              Answers-Outcome pid (
                ordonnance-Outcome started c
                  (registered-Registered s c p fresh v new fresh_idle).valid)),
        )
        | inr not_higher ↦ inr (
          omega (arith, prios, ltb→le (prio_of started c) (prio_of started p) not_higher),
          start_result false not_higher,
        )
      ],
    )

  -- In a valid kernel, with a priority in range, a pid left, a name and a stack that fit, and
  -- memory for all three requests, the first where no process is, `start` registers a new process
  -- under the next pid, with the given name, priority and first stack, as a child of the running
  -- one. If the new process has no higher priority than the running one, the call returns that pid
  -- at once. If it has, the scheduler runs, with all that it guarantees: the call returns that pid
  -- where the caller keeps the processor, and is suspended where it does not.
  pub start-Registered :
      (words : List ℕ) × (k : Kernel) × (initial_stack prog (stack_size ssize) ≡ some words)
      × Registered s c p (ready_process pid nom prio base (stack_size ssize) words) k
      × (((prio_of s c < pos_part prio) × Answers k c pid (start prog nom ssize prio mem s))
          ⊎ ((pos_part prio ≤ prio_of s c)
              × (start prog nom ssize prio mem s ≡ some (k, returned pid))))
  unfolding stack_size
  start-Registered =
      let frame = initial_stack_frame prog (stack_size ssize) (ground arith) (ground arith) in
      let (r, a) = start-started frame.0 frame.1 in
      (frame.0, started frame.0 frame.1, frame.1, r, a)
