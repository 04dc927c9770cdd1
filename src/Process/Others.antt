-- ===== src/Process/Others.antt =====
-- The system calls about another process: `chprio`, `getprio` and `waitpid`.
use advanced_operating_syste.Base.{
  ℕ, Bool, true, false, ◌||◌, not, Option, none, some, List, [], ◌∷◌, if◌then◌else◌, ◌>>=◌,
}
use advanced_operating_syste.Base.Int.{ℤ, pos, negsuc, pos_part, ltb_ℤ, ◌==ℤ◌}
use advanced_operating_syste.Process.State.{
  chosen, activable, sleeping, is_zombie, Kernel, prio_of, state_of, update, add_process_list,
  add_sleeping_list, queue_del, find, has_pid,
}
use advanced_operating_syste.Process.Schedule.{ordonnance}
use advanced_operating_syste.Process.Calls.{Reply, maxprio, reply, returned}

-- The process found goes to its new place.
unfoldable pub replace : ℕ → Kernel → Option Kernel
replace p s = elim (state_of s p) [
  | sleeping ↦ do s ← queue_del p s; add_sleeping_list p s
  | activable ↦ do s ← queue_del p s; add_process_list p s
  | _ ↦ some s
]

-- The search of `chprio` and what follows, for the running process `c`, which is linked.
unfoldable pub chprio_search : ℕ → ℤ → ℤ → Kernel → Option (Kernel × Reply)
chprio_search c pid newprio s = elim (find (has_pid pid) s.procs s.process_list) [
  | none ↦ do s ← queue_del c s; some (s, returned (negsuc 0))
  | some p ↦
      let old = prio_of s p in
      let s = record s {
        procs = update s.procs p (record (s.procs p) { prio = pos_part newprio });
      } in
      if is_zombie (state_of s p)
      then (do s ← queue_del c s; some (s, returned (negsuc 0)))
      else do s ← replace p s; s ← queue_del c s; r ← ordonnance s; some (reply r (pos old))
]

abbrev pub is_priority : ℤ → Bool
is_priority prio = not (ltb_ℤ prio (pos 1) || ltb_ℤ maxprio prio)

-- The running process is linked for the time of the search, so that it is found too.
unfoldable pub chprio : ℤ → ℤ → Kernel → Option (Kernel × Reply)
chprio pid newprio s =
    if not (is_priority newprio)
    then some (s, returned (negsuc 0))
    else do c ← s.running; s ← add_process_list c s; chprio_search c pid newprio s

unfoldable pub getprio : ℤ → Kernel → Option ℤ
getprio pid s = if ltb_ℤ pid (pos 0) then some (negsuc 0) else do
  c ← s.running
  if has_pid pid (s.procs c)
      then some (pos (prio_of s c))
      else some (elim (find (has_pid pid) s.procs s.process_list) [
        | none ↦ negsuc 0
        | some p ↦ pos (prio_of s p)
      ])

-- `waitpid` with a positive pid: the process that it will wait for, or the value that it returns.
pub data Waiting : Type 0 where
  refused : ℤ → Waiting
  for : ℕ → Waiting

unfoldable pub waitpid : ℤ → Kernel → Option Waiting
waitpid pid s = if pid ==ℤ pos 0 then some (refused (negsuc 2)) else do
  c ← s.running
  elim (s.procs c).children [
    | [] ↦ some (refused (negsuc 0))
    | _ ∷ _ ↦ some (elim (find (has_pid pid) s.procs s.process_list) [
      | some p ↦ for p
      | none ↦ elim (find (has_pid pid) s.procs s.to_kill_list) [
        | some p ↦ for p
        | none ↦ refused (negsuc 0)
      ]
    ])
  ]

-- The test of the loop that waits.
unfoldable pub is_waiting : ℕ → Kernel → Bool
is_waiting p s = elim (state_of s p) [
  | chosen ↦ true
  | activable ↦ true
  | sleeping ↦ true
  | _ ↦ false
]

-- The loop reads the state of the child in the kernel as it is at each round; the interrupts in
-- between change it. After it the child is taken out of its list and its value returned.
unfoldable pub waitpid_loop : ℕ → List Kernel → Option (Kernel × ℤ)
waitpid_loop p [] = none
waitpid_loop p (s ∷ later) =
    let rest = waitpid_loop p later in
    if is_waiting p s then rest else do s ← queue_del p s; some (s, (s.procs p).retval)
