-- ===== src/Process/Register.antt =====
-- `start`: the kernel in which the new process is registered, before the scheduler runs.
use advanced_operating_syste.Base.{
  ℕ, ◌+◌, ◌<◌, ◌≡◌, refl, ◌∙◌, sym, ap, false, [], ◌∷◌, ◌++◌, inl, inr, arith, ◌==◌, if◌then◌else◌,
  Bool-cases,
}
use advanced_operating_syste.Queue.Insert.{insert}
use advanced_operating_syste.Queue.Order.{
  count-insert, Sorted, insert-Sorted, Sorted-members, All-others,
}
use advanced_operating_syste.Process.State.{Kernel, Process, chosen, prio_of, state_of, update}
use advanced_operating_syste.Process.Places.{runs, listed, places, listed-le-places}
use advanced_operating_syste.Process.Switch.{IsValid}

-- The kernel that a successful call leaves to the scheduler.
module _ (s : Kernel) (c p : ℕ) (fresh : Process) where
  abbrev with_process : Kernel
  with_process = record s { pidmax = fresh.pid; procs = update s.procs p fresh }

  abbrev with_child : Kernel
  with_child =
      let parent = with_process.procs c in
      record with_process {
        procs =
            update with_process.procs c
              (record parent { children = parent.children ++ (with_process.procs p).pid ∷ [] });
      }

  abbrev pub with_parent : Kernel
  with_parent = record with_child {
    procs =
        update with_child.procs p
          (record (with_child.procs p) { parent_pid = (with_process.procs c).pid });
  }

  abbrev pub registered : Kernel
  registered = record with_parent { process_list = insert (prio_of with_parent) p s.process_list }

-- What holds of it: the new process is ready, its parent knows it, and nobody else has changed.
pub record Registered (s : Kernel) (c p : ℕ) (fresh : Process) (k : Kernel) : Type 0 where
  pub valid : IsValid k c
  pub one_more : (q : ℕ) → places k q ≡ places s q + (if q == p then 1 else 0)
  pub dead : k.to_kill_list ≡ s.to_kill_list
  pub counter : k.pidmax ≡ fresh.pid
  pub process : k.procs p ≡ record fresh { parent_pid = (s.procs c).pid }
  pub child : (k.procs c).children ≡ (s.procs c).children ++ fresh.pid ∷ []
  pub parent : k.procs c ≡ record (s.procs c) { children = (s.procs c).children ++ fresh.pid ∷ [] }
  pub place : k.process_list ≡ insert (prio_of k) p s.process_list
  pub others : (q : ℕ) → (q == p) ≡ false → (q == c) ≡ false → k.procs q ≡ s.procs q

module _ (s : Kernel) (c p : ℕ) (fresh : Process) (v : IsValid s c) (new : places s p ≡ 0)
    (idle : (fresh.state ≡ chosen) → ⊥) where
  pub unlisted : listed s p ≡ 0
  unlisted = omega (arith, new, listed-le-places s p)

  pub other : (p == c) ≡ false
  unfolding places runs
  other = ground (arith, new, ap (λ o. runs o p) v.running)

  pub prio_elsewhere : (q : ℕ) → (q == p) ≡ false → prio_of (registered s c p fresh) q ≡ prio_of s q
  prio_elsewhere q n = ground arith

  state_elsewhere : (q : ℕ) → (q == p) ≡ false → state_of (registered s c p fresh) q ≡ state_of s q
  state_elsewhere q n = ground arith

  one_more : (q : ℕ) → places (registered s c p fresh) q ≡ places s q + (if q == p then 1 else 0)
  unfolding places listed
  one_more q = omega (arith, count-insert (prio_of (with_parent s c p fresh)) p q s.process_list)

  alone :
      (q : ℕ)
      → 0 < listed (registered s c p fresh) q
      → (state_of (registered s c p fresh) q ≡ chosen)
      → ⊥
  unfolding listed
  alone q h e = elim (Bool-cases (q == p)) [
    | inl same ↦ idle (ground (arith, other))
    | inr differs ↦
        v.alone q
          (ground (arith, count-insert (prio_of (with_parent s c p fresh)) p q s.process_list))
          (sym (state_elsewhere q differs) ∙ e)
  ]

  sorted : Sorted (prio_of (registered s c p fresh)) (registered s c p fresh).process_list
  unfolding listed
  sorted = insert-Sorted (prio_of (with_parent s c p fresh)) p s.process_list (
      Sorted-members (prio_of s) _ s.process_list
        (All-others (λ q. prio_of (with_parent s c p fresh) q ≡ prio_of s q) p s.process_list
          prio_elsewhere (omega (arith, unlisted)))
        v.sorted)

  pub registered-Registered : Registered s c p fresh (registered s c p fresh)
  registered-Registered = record {
    valid = record {
      running = v.running;
      once = λ q. ground (arith, one_more q, new, v.once q);
      sorted = sorted;
      alone = alone;
    };
    one_more = one_more;
    dead = refl;
    counter = refl;
    process = ground (arith, other);
    child = ground (arith, other);
    parent = ground (arith, other);
    place = refl;
    others = λ q n m. ground arith;
  }
