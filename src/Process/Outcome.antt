-- ===== src/Process/Outcome.antt =====
-- What a call of `ordonnance` comes to.
use advanced_operating_syste.Base.{
  ℕ, ◌+◌, ◌≤◌, ◌≡◌, Bool, true, false, Option, some, List, [], ◌∷◌, ◌++◌, ◌==◌, if◌then◌else◌, All,
  ◌∈◌,
}
use advanced_operating_syste.Process.State.{Kernel, chosen, prio_of, state_of, is_zombie}
use advanced_operating_syste.Process.Places.{places}
use advanced_operating_syste.Process.Switch.{is_dropped, left_state, left_list, IsLeftIn, IsValid}

-- No process can run: all that were ready have terminated.
pub record Stays (s : Kernel) (u : Kernel) : Type 0 where
  pub same_running : u.running ≡ s.running
  pub same_procs : u.procs ≡ s.procs
  pub all_dead : All (λ p. is_zombie (state_of s p) ≡ true) s.process_list
  pub emptied : u.process_list ≡ []
  pub same_places : (p : ℕ) → places u p ≡ places s p
  pub kept_dead : (p : ℕ) → p ∈ s.to_kill_list → p ∈ u.to_kill_list
  pub same_pidmax : u.pidmax ≡ s.pidmax

-- `z` takes the processor from `c`. It had not terminated, and no process that had not terminated
-- has a higher priority: the last of the ready list, up to the terminated ones behind it. `c` goes
-- to the list that its state belongs in, and is ready if it was running; nothing else of any
-- process changes. Those that wait to be taken away still do. Every process keeps its place or
-- moves to another, but for `c` if it is in a state that belongs in no list.
pub record Switches (s : Kernel) (c z : ℕ) (u : Kernel) : Type 0 where
  pub taken : u.running ≡ some z
  pub became : state_of u z ≡ chosen
  pub chosen_from : u.procs z ≡ record (s.procs z) { state = chosen }
  pub left : u.procs c ≡ record (s.procs c) { state = left_state (state_of s c) }
  pub left_in : IsLeftIn (state_of s c) c u
  pub others : (p : ℕ) → (p == c) ≡ false → (p == z) ≡ false → u.procs p ≡ s.procs p
  pub kept_dead : (p : ℕ) → p ∈ s.to_kill_list → p ∈ u.to_kill_list
  pub same_pidmax : u.pidmax ≡ s.pidmax
  pub ready : z ∈ s.process_list
  pub order :
      (xs dead : List ℕ) × (s.process_list ≡ xs ++ z ∷ dead)
      × All (λ p. is_zombie (state_of s p) ≡ true) dead
      × (u.process_list ≡ left_list (state_of s c) (prio_of s) c xs)
  pub alive : is_zombie (state_of s z) ≡ false
  pub highest :
      (p : ℕ) → p ∈ s.process_list → is_zombie (state_of s p) ≡ false → prio_of s p ≤ prio_of s z
  pub same_prio : (p : ℕ) → prio_of u p ≡ prio_of s p
  pub same_pid : (p : ℕ) → (u.procs p).pid ≡ (s.procs p).pid
  pub kept :
      (p : ℕ)
      → places u p + (if p == c then (if is_dropped (state_of s c) then 1 else 0) else 0)
        ≡ places s p

pub data Outcome (s : Kernel) (c : ℕ) : Option (Kernel × Bool) → Type 0 where
  stays : {u : Kernel} → Stays s u → IsValid u c → Outcome s c (some (u, false))
  switches : {u : Kernel} (z : ℕ) → Switches s c z u → IsValid u z → Outcome s c (some (u, true))

pub Outcome-switched :
    {s u : Kernel} {c : ℕ} → Outcome s c (some (u, true)) → (z : ℕ) × Switches s c z u × IsValid u z
Outcome-switched (switches z t w) = (z, t, w)
