-- ===== src/Process/Reap.antt =====
-- The loop of `ordonnance` that moves terminated processes to `toKill_list`.
use advanced_operating_syste.Base.{
  ℕ, zero, suc, ◌+◌, ◌≤◌, ◌<◌, ◌≡◌, refl, ◌∙◌, sym, ap, true, false, none, some, List, [], ◌∷◌,
  ◌++◌, inl, inr, arith, ◌==◌, if◌then◌else◌, last_or, front, front-append-last, length,
  length-front, All, All-append, Bool-cases, ◌∈◌,
}
use mathlib.Core.List.{append_assoc, append-nil}
use advanced_operating_syste.Queue.Insert.{insert}
use advanced_operating_syste.Queue.Order.{count-insert, count-front, insert-has}
use advanced_operating_syste.Process.State.{
  Kernel, prio_of, state_of, is_zombie, add_to_kill_list, Process,
}
use advanced_operating_syste.Process.Schedule.{queue_out, reap}
use advanced_operating_syste.Process.Places.{listed, add_to_kill_list-some}

-- The process that would be taken next, if any, has not terminated.
abbrev pub TopIsAlive : (ℕ → Process) → List ℕ → Type 0
TopIsAlive procs [] = Unit {0}
TopIsAlive procs (x ∷ xs) = is_zombie (procs (last_or x xs)).state ≡ false

-- What the loop does: the terminated processes at the top change lists, and nothing else changes.
pub record Reaped (s t : Kernel) : Type 0 where
  pub same_procs : t.procs ≡ s.procs
  pub same_running : t.running ≡ s.running
  pub same_pidmax : t.pidmax ≡ s.pidmax
  pub same_sleeping : t.sleeping_list ≡ s.sleeping_list
  pub same_places : (p : ℕ) → listed t p ≡ listed s p
  pub kept_dead : (p : ℕ) → p ∈ s.to_kill_list → p ∈ t.to_kill_list
  pub dropped :
      (dead : List ℕ) × (s.process_list ≡ t.process_list ++ dead)
      × All (λ p. is_zombie (state_of s p) ≡ true) dead
  pub alive : TopIsAlive t.procs t.process_list

module _ (s : Kernel) (x : ℕ) (xs : List ℕ) (e : s.process_list ≡ x ∷ xs)
    (placed : (p : ℕ) → listed s p ≤ 1) where
  abbrev top : ℕ
  top = last_or x xs

  abbrev rest : Kernel
  rest = record s { process_list = front (x ∷ xs) }

  abbrev moved : Kernel
  moved = record rest { to_kill_list = insert (prio_of s) top s.to_kill_list }

  listed-rest : (p : ℕ) → (if p == top then 1 else 0) + listed rest p ≡ listed s p
  unfolding listed
  listed-rest p = rw e (omega (arith, count-front p x xs))

  listed-moved : (p : ℕ) → listed moved p ≡ listed s p
  unfolding listed
  listed-moved p = omega (arith, listed-rest p, count-insert (prio_of s) top p s.to_kill_list)

  moved-some : add_to_kill_list top rest ≡ some moved
  moved-some = add_to_kill_list-some rest top (ground (arith, listed-rest top, placed top))

Reaped-refl : (s : Kernel) → TopIsAlive s.procs s.process_list → Reaped s s
Reaped-refl s alive = record {
  same_procs = refl;
  same_running = refl;
  same_pidmax = refl;
  same_sleeping = refl;
  same_places = λ p. refl;
  kept_dead = λ p i. i;
  dropped = ([], sym (append-nil s.process_list), tt);
  alive = alive;
}

Reaped-moved :
    (s : Kernel) (x : ℕ) (xs : List ℕ) (e : s.process_list ≡ x ∷ xs)
    (placed : (p : ℕ) → listed s p ≤ 1) (t : Kernel)
    → is_zombie (state_of s (last_or x xs)) ≡ true
    → Reaped (moved s x xs e placed) t
    → Reaped s t
Reaped-moved s x xs e placed t dead r =
    let (late, split, all) = r.dropped in
    record {
      same_procs = r.same_procs;
      same_running = r.same_running;
      same_pidmax = r.same_pidmax;
      same_sleeping = r.same_sleeping;
      same_places = λ p. r.same_places p ∙ listed-moved s x xs e placed p;
      kept_dead = λ p i. r.kept_dead p (insert-has (prio_of s) (last_or x xs) p s.to_kill_list i);
      dropped = (
        late ++ last_or x xs ∷ [],
        e
            ∙ sym (front-append-last x xs)
            ∙ ap (λ ys. ys ++ last_or x xs ∷ []) split
            ∙ append_assoc t.process_list late (last_or x xs ∷ []),
        All-append (λ p. is_zombie (state_of s p) ≡ true) late (last_or x xs ∷ []) all (dead, tt),
      );
      alive = r.alive;
    }

pub queue_out-nil : (s : Kernel) → s.process_list ≡ [] → queue_out s ≡ none
unfolding queue_out
queue_out-nil s e = rw e refl

pub queue_out-cons :
    (s : Kernel) (x : ℕ) (xs : List ℕ)
    → s.process_list ≡ x ∷ xs
    → queue_out s ≡ some (last_or x xs, record s { process_list = front (x ∷ xs) })
unfolding queue_out
queue_out-cons s x xs e = rw e refl

-- The three ways in which a round of the loop goes.
module _ (fuel : ℕ) (s : Kernel) where
  reap_empty : s.process_list ≡ [] → reap (suc fuel) s ≡ some s
  unfolding reap
  reap_empty e = rw (queue_out-nil s e, reap) refl

  reap_alive :
      (x : ℕ) (xs : List ℕ)
      → s.process_list ≡ x ∷ xs
      → is_zombie (state_of s (last_or x xs)) ≡ false
      → reap (suc fuel) s ≡ some s
  unfolding reap
  reap_alive x xs e alive = rw (queue_out-cons s x xs e, reap, alive) refl

  reap_dead :
      (x : ℕ) (xs : List ℕ) (e : s.process_list ≡ x ∷ xs) (placed : (p : ℕ) → listed s p ≤ 1)
      → is_zombie (state_of s (last_or x xs)) ≡ true
      → reap (suc fuel) s ≡ reap fuel (moved s x xs e placed)
  unfolding reap
  reap_dead x xs e placed dead =
      rw (queue_out-cons s x xs e, reap, dead, moved-some s x xs e placed) refl

-- With more fuel than there are processes in the list the loop ends.
pub reap-Reaped :
    (fuel : ℕ) (s : Kernel)
    → length s.process_list < fuel
    → ((p : ℕ) → listed s p ≤ 1)
    → (t : Kernel) × (reap fuel s ≡ some t) × Reaped s t
reap-Reaped zero s h placed = absurd (omega arith)
reap-Reaped (suc fuel) s h placed = at (reap-Reaped fuel) s.process_list refl
  where
    at :
        ((s : Kernel)
          → length s.process_list < fuel
          → ((p : ℕ) → listed s p ≤ 1)
          → (t : Kernel) × (reap fuel s ≡ some t) × Reaped s t)
        → (xs : List ℕ) → s.process_list ≡ xs
        → (t : Kernel) × (reap (suc fuel) s ≡ some t) × Reaped s t
    at again [] e = (s, reap_empty fuel s e, Reaped-refl s (rw e tt))
    at again (x ∷ xs) e = elim (Bool-cases (is_zombie (state_of s (last_or x xs)))) [
      | inr alive ↦ (s, reap_alive fuel s x xs e alive, Reaped-refl s (rw e alive))
      | inl dead ↦
          let (t, run, r) =
            again (moved s x xs e placed) (omega (arith, length-front x xs, ap length e))
              (λ p. omega (arith, listed-moved s x xs e placed p, placed p)) in
          (t, reap_dead fuel s x xs e placed dead ∙ run, Reaped-moved s x xs e placed t dead r)
    ]
