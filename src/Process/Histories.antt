-- ===== src/Process/Histories.antt =====
-- Everything that can happen after `init_process_stack`.
use advanced_operating_syste.Base.{
  ℕ, ◌<◌, ◌≡◌, ◌∙◌, sym, ap, subst, false, some, arith, ◌==◌, Bool-cases, inl, inr, ==_iff,
}
use advanced_operating_syste.Base.Int.{pos_part, neg_part, ◌≤ℤ◌}
use advanced_operating_syste.Process.State.{Kernel, Process}
use advanced_operating_syste.Process.Calls.{Program, Allocations, init_process_stack}
use advanced_operating_syste.Process.Places.{places}
use advanced_operating_syste.Process.Switch.{IsValid}
use advanced_operating_syste.Process.Keeps.{Numbered}
use advanced_operating_syste.Process.Boot.{boot, init_process_stack-IsValid}
use advanced_operating_syste.Process.Event.{Event, Fits, Succeeds, perform}
use advanced_operating_syste.Process.Reach.{Reach, Reach-IsValid}

-- Where only one process has a place, and its pid is the counter.
single-Numbered :
    (s : Kernel) (p : ℕ)
    → (s.procs p).pid ≡ s.pidmax
    → ((q : ℕ) → (q == p) ≡ false → places s q ≡ 0)
    → Numbered s
single-Numbered s p pid nobody = record {
  differ = λ q t hq ht same. sym (only t ht ∙ sym (only q hq));
  below = λ q h.
      subst (λ x. (s.procs x).pid ≤ℤ s.pidmax) (sym (only q h))
        (omega (arith, ap pos_part pid, ap neg_part pid));
}
  where
    only : (q : ℕ) → 0 < places s q → q ≡ p
    only q h = elim (Bool-cases (q == p)) [
      | inl same ↦ (==_iff q p).0 same
      | inr other ↦ absurd (omega (arith, nobody q other))
    ]

-- With memory for its structure and its stack, `init_process_stack` leaves a kernel from which
-- every history of clock interrupts and of the calls `start`, `exit`, `kill`, `chprio`, `unblock`,
-- `block_send`, `block_recv`, `bloque_sur_semaphore` and `passe_activable`, though not of
-- `waitpid`, leads to a valid kernel, in which no two processes have the same pid and none a pid
-- above the counter, and a further one of these succeeds. `start` has to find what it takes for
-- granted, and `chprio` nobody or a process that is ready or runs.
pub init_process_stack-Reach :
    (idle : Program) (procs : ℕ → Process) (mem : Allocations) (p base : ℕ) (s t : Kernel)
    (e : Event)
    → mem.process_at ≡ some p
    → mem.stack_at ≡ some base
    → init_process_stack idle mem (boot procs) ≡ some s
    → Reach s t
    → Fits e t
    → ((z : ℕ) × IsValid t z) × Numbered t × Succeeds t (perform e t)
init_process_stack-Reach idle procs mem p base s t e at_p at_base run reach fits =
    let (s', run', v, state, pid, prio, last, empty, nobody) =
      init_process_stack-IsValid idle procs mem p base at_p at_base in
    let same : s' ≡ s = ground (arith, run, run') in
    let (valid, kept, ready) = Reach-IsValid e v (subst (λ k. Reach k t) (sym same) reach) fits in
    (valid, kept.numbers (single-Numbered s' p (pid ∙ sym last) nobody), ready)
