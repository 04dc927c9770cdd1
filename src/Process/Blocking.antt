-- ===== src/Process/Blocking.antt =====
-- The calls by which a process blocks itself or a search for it fails.
use advanced_operating_syste.Base.{
  ℕ, ◌+◌, ◌≡◌, refl, ◌∙◌, sym, ap, subst, true, false, none, some, inl, inr, arith, ◌==◌,
  if◌then◌else◌, ◌>>=◌, Bool-cases, has,
}
use advanced_operating_syste.Base.Int.{pos, negsuc, leb_ℤ, ◌==ℤ◌}
use advanced_operating_syste.Queue.Order.{count}
use advanced_operating_syste.Process.State.{Kernel, blocked_on_sem, set_state, find, has_pid}
use advanced_operating_syste.Process.Schedule.{
  ordonnance, block_send, block_recv, getpid, bloque_sur_semaphore, passe_activable,
}
use advanced_operating_syste.Process.Calls.{returned, kill}
use advanced_operating_syste.Process.Places.{
  runs, listed, places, find-none, count_of_has, has-places,
}
use advanced_operating_syste.Process.Keeps.{PidsDiffer}
use advanced_operating_syste.Process.Switch.{IsValid}
use advanced_operating_syste.Process.Choice.{ordonnance-Outcome}
use advanced_operating_syste.Process.Outcome.{Outcome, Switches, Outcome-switched}
use advanced_operating_syste.Process.Ending.{IsValid-procs, change_found-none, killable}

-- The running process is in no list, so a search by its pid fails.
running_not_found :
    (s : Kernel) (c : ℕ)
    → IsValid s c
    → PidsDiffer s
    → (p : ℕ) → has p s.process_list ≡ true
    → has_pid (s.procs c).pid (s.procs p) ≡ false
unfolding places listed runs
running_not_found s c v differ p i = elim (Bool-cases (has_pid (s.procs c).pid (s.procs p))) [
  | inr miss ↦ miss
  | inl hit ↦
      let member = count_of_has p s.process_list i in
      let here = ap (λ o. runs o c) v.running in
      let same = differ p c (omega arith) (ground arith) hit in
      absurd (ground (arith, v.once c, ap (λ q. count q s.process_list) same))
]

module _ (s : Kernel) (c : ℕ) (v : IsValid s c) (differ : PidsDiffer s) where
  -- In a valid kernel in which pids differ, a process cannot kill itself: the call fails and
  -- changes nothing, since the loop looks only at the processes that are ready.
  pub kill_self : kill (s.procs c).pid s ≡ some (s, returned (negsuc 0))
  unfolding kill
  kill_self = elim (Bool-cases (leb_ℤ (s.procs c).pid (pos 0))) [
    | inl low ↦ rw (low, kill) refl
    | inr high ↦
        let missed =
          find-none (killable (s.procs c).pid) s.procs s.process_list
            (λ p i. ground (arith, running_not_found s c v differ p i)) in
        rw (high, kill, change_found-none (killable (s.procs c).pid) _ s missed) refl
  ]

  own_pid_not_found : find (has_pid (s.procs c).pid) s.procs s.process_list ≡ none
  own_pid_not_found =
      find-none (has_pid (s.procs c).pid) s.procs s.process_list
        (λ p i. running_not_found s c v differ p i)

  -- In a valid kernel in which pids differ, `block_send(getpid())` and `block_recv(getpid())`,
  -- as the message queues call them, block nobody: they find no process and change nothing.
  pub block_self :
      (getpid s ≡ some (s.procs c).pid)
      × (block_send (s.procs c).pid s ≡ some (s, none))
      × (block_recv (s.procs c).pid s ≡ some (s, none))
  unfolding getpid block_send block_recv
  block_self = (
    ap (λ o. o >>= λ c. some (s.procs c).pid) v.running,
    change_found-none (has_pid (s.procs c).pid) _ s own_pid_not_found,
    change_found-none (has_pid (s.procs c).pid) _ s own_pid_not_found,
  )

pub bloque_sur_semaphore-Outcome :
    (s : Kernel) (c : ℕ)
    → IsValid s c
    → Outcome (set_state c blocked_on_sem s) c (bloque_sur_semaphore s)
unfolding bloque_sur_semaphore
bloque_sur_semaphore-Outcome s c v =
    subst
      (λ o.
        Outcome (set_state c blocked_on_sem s) c
          (o >>= λ c. ordonnance (set_state c blocked_on_sem s)))
      (sym v.running)
      (ordonnance-Outcome (set_state c blocked_on_sem s) c
        (IsValid-procs s c _ v (λ q. ground arith) (λ q e. ground arith)))

module _ (s u : Kernel) (c : ℕ) (v : IsValid s c) (differ : PidsDiffer s)
    (run : bloque_sur_semaphore s ≡ some (u, true)) where
  blocked_switch : (z : ℕ) × Switches (set_state c blocked_on_sem s) c z u × IsValid u z
  blocked_switch =
      Outcome-switched
        (subst (Outcome (set_state c blocked_on_sem s) c) run (bloque_sur_semaphore-Outcome s c v))

  kept_place : (p : ℕ) → places u p + (if p == c then 1 else 0) ≡ places s p
  unfolding places listed
  kept_place p = let (z, t, w) = blocked_switch in ground (arith, t.kept p)

  gone : places u c ≡ 0
  gone = ground (arith, kept_place c, v.once c)

  others_differ :
      (p : ℕ) → has p u.process_list ≡ true → has_pid (s.procs c).pid (u.procs p) ≡ false
  others_differ p i = elim (Bool-cases (has_pid (s.procs c).pid (u.procs p))) [
    | inr miss ↦ miss
    | inl hit ↦
        let (z, t, w) = blocked_switch in
        let here = has-places u p i in
        let pid : (u.procs p).pid ≡ (s.procs p).pid = t.same_pid p ∙ ground arith in
        let same : p ≡ c =
          differ p c (ground (arith, kept_place p)) (ground (arith, gone, kept_place c))
            (ap (λ i. i ==ℤ (s.procs c).pid) (sym pid) ∙ hit) in
        absurd (ground (arith, ap (places u) same, gone))
  ]

  -- In a valid kernel in which pids differ, a process that blocks on a semaphore and so gives
  -- the processor away is in no list at all, and `passe_activable` with its pid, which looks
  -- among the ready processes, changes nothing.
  pub semaphore_loses : (places u c ≡ 0) × (passe_activable (s.procs c).pid u ≡ u)
  unfolding passe_activable
  semaphore_loses = (
    gone,
    rw (find-none (has_pid (s.procs c).pid) u.procs u.process_list others_differ, passe_activable)
        refl,
  )
