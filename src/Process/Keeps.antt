-- ===== src/Process/Keeps.antt =====
-- What the calls of process.c leave as it is: the processes that have terminated and wait to be
-- taken away, and the numbering of the processes.
use advanced_operating_syste.Base.{
  ℕ, ◌≤◌, ◌<◌, ◌≡◌, refl, ◌∙◌, sym, ap, subst, Bool, true, false, some, inl, inr, arith, ◌==◌,
  if◌then◌else◌, Bool-cases, ◌∈◌, ==_iff,
}
use advanced_operating_syste.Base.Int.{pos_part, neg_part, ◌≤ℤ◌, ◌==ℤ◌}
use advanced_operating_syste.Queue.Order.{count}
use advanced_operating_syste.Process.State.{Kernel, Process, zombie, state_of}
use advanced_operating_syste.Process.Places.{runs, listed, places, count_of_has}
use advanced_operating_syste.Process.Switch.{IsValid}
use advanced_operating_syste.Process.Outcome.{Outcome, stays, switches}

-- `p` has terminated, and nobody has asked for its value yet.
abbrev pub IsWaitedFor : Kernel → ℕ → Type 0
IsWaitedFor s p = (state_of s p ≡ zombie) × (p ∈ s.to_kill_list)

-- Two processes with a place have different pids.
abbrev pub PidsDiffer : Kernel → Type 0
PidsDiffer s =
    (p q : ℕ)
    → 0 < places s p
    → 0 < places s q
    → (((s.procs p).pid ==ℤ (s.procs q).pid) ≡ true)
    → p ≡ q

-- The pids differ, and the counter is not below any.
pub record Numbered (s : Kernel) : Type 0 where
  pub differ : PidsDiffer s
  pub below : (p : ℕ) → 0 < places s p → (s.procs p).pid ≤ℤ s.pidmax

pub record Keeps (s u : Kernel) : Type 0 where
  pub dead : (p : ℕ) → IsWaitedFor s p → (u.procs p ≡ s.procs p) × (p ∈ u.to_kill_list)
  pub numbers : Numbered s → Numbered u

pub Keeps-refl : (s : Kernel) → Keeps s s
Keeps-refl s = record { dead = λ p w. (refl, w.1); numbers = λ n. n }

pub Keeps-trans : (s t u : Kernel) → Keeps s t → Keeps t u → Keeps s u
Keeps-trans s t u k l = record {
  dead = λ p w.
      let (same, i) = k.dead p w in
      let (same', i') = l.dead p (ap (λ r. r.state) same ∙ w.0, i) in (same' ∙ same, i');
  numbers = λ n. l.numbers (k.numbers n);
}

-- Fewer places, the same pids, and a counter that does not fall.
pub Numbered-fewer :
    (s u : Kernel)
    → ((p : ℕ) → places u p ≤ places s p)
    → ((p : ℕ) → 0 < places u p → (u.procs p).pid ≡ (s.procs p).pid)
    → s.pidmax ≤ℤ u.pidmax
    → Numbered s
    → Numbered u
Numbered-fewer s u fewer same more n = record {
  differ = λ p q hp hq e.
      n.differ p q (omega (arith, fewer p)) (omega (arith, fewer q))
        (ground (arith, same p hp, same q hq));
  below = λ p h.
      subst (λ i. i ≤ℤ u.pidmax) (sym (same p h))
        (omega (arith, n.below p (omega (arith, fewer p)), more));
}

module _ (s : Kernel) (c : ℕ) (v : IsValid s c) where
  -- A terminated process that waits is in no other list, and does not run.
  pub dead_elsewhere : (p : ℕ) → p ∈ s.to_kill_list → (p == c) ≡ false
  unfolding places listed runs
  dead_elsewhere p i =
      ground (arith, v.once p, count_of_has p s.to_kill_list i, ap (λ o. runs o p) v.running)

  pub dead_not_ready : (p q : ℕ) → p ∈ s.to_kill_list → q ∈ s.process_list → (p == q) ≡ false
  unfolding places listed
  dead_not_ready p q i j = elim (Bool-cases (p == q)) [
    | inr differs ↦ differs
    | inl same ↦
        let both = ap (λ x. count x s.process_list) ((==_iff p q).0 same) in
        absurd (
          omega (
            arith,
            v.once p,
            count_of_has p s.to_kill_list i,
            count_of_has q s.process_list j,
            both,
          ))
  ]

  pub Outcome-Keeps : {u : Kernel} {b : Bool} → Outcome s c (some (u, b)) → Keeps s u
  Outcome-Keeps (stays {u} t w) = record {
    dead = λ p d. (ap (λ f. f p) t.same_procs, t.kept_dead p d.1);
    numbers =
        Numbered-fewer s u (λ p. omega (arith, t.same_places p))
          (λ p h. ap (λ f. (f p).pid) t.same_procs)
          (omega (arith, ap pos_part t.same_pidmax, ap neg_part t.same_pidmax));
  }
  Outcome-Keeps (switches {u} z t w) = record {
    dead = λ p d.
        let other : (p == z) ≡ false = dead_not_ready p z d.1 t.ready in
        (t.others p (dead_elsewhere p d.1) other, t.kept_dead p d.1);
    numbers =
        Numbered-fewer s u (λ p. omega (arith, t.kept p)) (λ p h. t.same_pid p)
          (omega (arith, ap pos_part t.same_pidmax, ap neg_part t.same_pidmax));
  }

-- A change of the memory that spares the terminated processes that wait, and all pids.
pub Keeps-procs :
    (s : Kernel) (procs : ℕ → Process)
    → ((q : ℕ) → (procs q).pid ≡ (s.procs q).pid)
    → ((q : ℕ) → IsWaitedFor s q → procs q ≡ s.procs q)
    → Keeps s (record s { procs = procs })
unfolding places listed
Keeps-procs s procs pids same = record {
  dead = λ q w. (same q w, w.1);
  numbers =
      Numbered-fewer s (record s { procs = procs }) (λ p. omega arith) (λ p h. pids p)
        (omega arith);
}

-- The same for one process, which is not among those.
pub Keeps-change :
    (s : Kernel) (p : ℕ) (q : Process)
    → q.pid ≡ (s.procs p).pid
    → ((r : ℕ) → r ∈ s.to_kill_list → (r == p) ≡ false)
    → Keeps s (record s { procs = λ r. if r == p then q else s.procs r })
Keeps-change s p q same other =
    Keeps-procs s _ (λ r. ground arith) (λ r w. ground (arith, other r w.1))
