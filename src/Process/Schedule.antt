-- ===== src/Process/Schedule.antt =====
-- The scheduler, `ordonnance`, and the functions that wake and block processes. A function that
-- calls `ordonnance` returns, with the kernel, whether the processor was given away (`ctx_sw`).
use advanced_operating_syste.Base.{
  ℕ, zero, suc, Bool, true, false, ◌&&◌, Option, none, some, List, [], ◌∷◌, ◌==◌, if◌then◌else◌,
  ◌>>=◌, last_or, front, length,
}
use advanced_operating_syste.Base.Int.{ℤ}
use advanced_operating_syste.Process.State.{
  chosen, activable, sleeping, blocked_on_sem, blocked_on_msg_send, blocked_on_msg_rcv, zombie,
  is_zombie, Process, Kernel, state_of, set_state, add_process_list, add_sleeping_list,
  add_to_kill_list, find, has_pid,
}

-- queue_out(&process_list): the element, if any, and the kernel without it.
unfoldable pub queue_out : Kernel → Option (ℕ × Kernel)
queue_out s = elim s.process_list [
  | [] ↦ none
  | x ∷ xs ↦ some (last_or x xs, record s { process_list = front (x ∷ xs) })
]

-- The first loop: a terminated process at the top goes to `toKill_list`.
unfoldable pub reap : ℕ → Kernel → Option Kernel
reap zero s = none
reap (suc fuel) s = elim (queue_out s) [
  | none ↦ some s
  | some (p, rest) ↦
      let again = add_to_kill_list p rest >>= reap fuel in
      if is_zombie (state_of s p) then again else some s
]

-- Where the process that had the processor goes, by its state. A blocked one goes into no list.
unfoldable pub put_back : ℕ → Kernel → Option Kernel
put_back c s = elim (state_of s c) [
  | chosen ↦ add_process_list c (set_state c activable s)
  | sleeping ↦ add_sleeping_list c s
  | zombie ↦ add_to_kill_list c s
  | _ ↦ some s
]

-- The rest of `ordonnance`, after the loop.
unfoldable pub dispatch : Kernel → Option (Kernel × Bool)
dispatch s = elim (queue_out s) [
  | none ↦ some (s, false)
  | some (to_choose, rest) ↦ do
    c ← rest.running
    s ← put_back c (set_state to_choose chosen rest)
    some (record s { running = some to_choose }, true)
]

unfoldable pub ordonnance : Kernel → Option (Kernel × Bool)
ordonnance s = reap (suc (length s.process_list)) s >>= dispatch

-- A loop over `process_list` that changes the first process that it finds and calls the scheduler.
-- `none` in the answer: no process was found.
unfoldable pub change_found :
    (Process → Bool) → (Process → Process) → Kernel → Option (Kernel × Option Bool)
change_found test change s = elim (find test s.procs s.process_list) [
  | none ↦ some (s, none)
  | some p ↦ do
    (s, switched) ←
        ordonnance (record s { procs = λ q. if q == p then change (s.procs p) else s.procs q })
    some (s, some switched)
]

abbrev pub is_blocked_on_msg : Process → Bool
is_blocked_on_msg p = elim p.state [
  | chosen ↦ false
  | activable ↦ false
  | sleeping ↦ false
  | blocked_on_sem ↦ false
  | blocked_on_msg_send ↦ true
  | blocked_on_msg_rcv ↦ true
  | zombie ↦ false
]

unfoldable pub unblock : ℤ → Kernel → Option (Kernel × Option Bool)
unblock pid =
    change_found (λ p. has_pid pid p && is_blocked_on_msg p) (λ p. record p { state = activable })

unfoldable pub block_send : ℤ → Kernel → Option (Kernel × Option Bool)
block_send pid = change_found (has_pid pid) (λ p. record p { state = blocked_on_msg_send })

unfoldable pub block_recv : ℤ → Kernel → Option (Kernel × Option Bool)
block_recv pid = change_found (has_pid pid) (λ p. record p { state = blocked_on_msg_rcv })

-- A dereference of `chosen`.
unfoldable pub getpid : Kernel → Option ℤ
getpid s = do c ← s.running; some (s.procs c).pid

unfoldable pub mon_nom : Kernel → Option (List ℕ)
mon_nom s = do c ← s.running; some (s.procs c).name

unfoldable pub exit : ℤ → Kernel → Option (Kernel × Bool)
exit retval s = do
  c ← s.running
  ordonnance (record s {
    procs =
        λ q. if q == c then record (s.procs c) { retval = retval; state = zombie } else s.procs q;
  })

-- The code to which the first function of a process returns, with its result in `eax`.
unfoldable pub hdl_ret : ℤ → Kernel → Option (Kernel × Bool)
hdl_ret eax = exit eax

unfoldable pub bloque_sur_semaphore : Kernel → Option (Kernel × Bool)
bloque_sur_semaphore s = do c ← s.running; ordonnance (set_state c blocked_on_sem s)

unfoldable pub passe_activable : ℤ → Kernel → Kernel
passe_activable pid s = elim (find (has_pid pid) s.procs s.process_list) [
  | none ↦ s
  | some p ↦ set_state p activable s
]
