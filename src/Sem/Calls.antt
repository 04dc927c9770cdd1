-- ===== src/Sem/Calls.antt =====
-- The calls of sem.c. `none` is a write or a read through NULL.
use advanced_operating_syste.Base.{
  ℕ, zero, suc, ◌+◌, Bool, true, false, ◌||◌, Option, some, [], ◌∷◌, ◌++◌, if◌then◌else◌, ◌>>=◌,
  ltb,
}
use advanced_operating_syste.Base.Int.{ℤ, pos, negsuc, pos_part, ◌+ℤ◌, ◌-ℤ◌, ltb_ℤ, leb_ℤ, ◌==ℤ◌}
use advanced_operating_syste.Process.State.{Kernel}
use advanced_operating_syste.Process.Schedule.{ordonnance, getpid, bloque_sur_semaphore}
use advanced_operating_syste.Process.Calls.{Reply, returned, suspended}
use advanced_operating_syste.Sem.State.{
  nbsems, Semaphore, System, sem_courant, write_courant, add_proc_bloque, wake_all, wake_one,
}

abbrev pub is_bad : ℤ → Bool
is_bad sem = ltb_ℤ sem (pos 0) || leb_ℤ (pos nbsems) sem

abbrev store : ℤ → Semaphore → System → System
store sem cou s = record s { sems = write_courant sem cou s.sems }

-- The scheduler, and then the value 0.
unfoldable pub schedule : System → Option (System × Reply)
schedule s = do
  (k, switched) ← ordonnance s.kernel
  some (record s { kernel = k }, if switched then suspended else returned (pos 0))

unfoldable pub scount : ℤ → System → Option ℤ
scount sem s = elim s.sems [
  | [] ↦ some (negsuc 0)
  | c ∷ cs ↦
      if ltb_ℤ sem (pos 0) then some (negsuc 0) else do cou ← sem_courant sem (c ∷ cs); some cou.val
]

-- `node` is what `mem_alloc` answers.
unfoldable pub screate : ℤ → Option ℕ → System → Option (System × Reply)
screate count node s =
    let s = record s { nb_sem = s.nb_sem + 1 } in
    if ltb nbsems s.nb_sem || ltb_ℤ count (pos 0) then some (s, returned (negsuc 0)) else do
      _ ← node
      let sid = pos s.nb_sem -ℤ pos 1
      some (
        record s { sems = s.sems ++ record { sid = sid; val = count; p_bloques = [] } ∷ [] },
        returned sid,
      )

unfoldable pub sdelete : ℤ → System → Option (System × Reply)
sdelete sem s = if is_bad sem then some (s, returned (negsuc 0)) else do
  cou ← sem_courant sem s.sems
  let woken = wake_all cou.p_bloques s.kernel
  some (
    store sem (record cou { sid = negsuc 0; p_bloques = woken.0 }) (record s { kernel = woken.1 }),
    returned (pos 0),
  )

-- One increment, and the process that it wakes.
unfoldable pub increment : Semaphore → Kernel → Semaphore × Kernel
increment cou k =
    let cou = record cou { val = cou.val +ℤ pos 1 } in
    if leb_ℤ cou.val (pos 0) then wake_one cou k else (cou, k)

unfoldable pub signal : ℤ → System → Option (System × Reply)
signal sem s = if is_bad sem then some (s, returned (negsuc 0)) else do
  cou ← sem_courant sem s.sems
  if ltb_ℤ (pos 32767) (cou.val +ℤ pos 1)
      then some (s, returned (negsuc 1))
      else let (cou, k) = increment cou s.kernel in
        schedule (store sem cou (record s { kernel = k }))

-- The loop of `signaln`.
unfoldable pub increments : ℕ → Semaphore → Kernel → Semaphore × Kernel
increments zero cou k = (cou, k)
increments (suc count) cou k = let (cou, k) = increment cou k in increments count cou k

unfoldable pub signaln : ℤ → ℤ → System → Option (System × Reply)
signaln sem count s =
    if is_bad sem || ltb_ℤ count (pos 0) then some (s, returned (negsuc 0)) else do
      cou ← sem_courant sem s.sems
      if ltb_ℤ (pos 32767) (cou.val +ℤ count)
          then some (s, returned (negsuc 1))
          else let (cou, k) = increments (pos_part count) cou s.kernel in
            schedule (store sem cou (record s { kernel = k }))

unfoldable pub sreset : ℤ → ℤ → System → Option (System × Reply)
sreset sem count s = if is_bad sem || ltb_ℤ count (pos 0) then some (s, returned (negsuc 0)) else do
  cou ← sem_courant sem s.sems
  let woken = wake_all cou.p_bloques s.kernel
  some (
    store sem (record cou { val = count; p_bloques = woken.0 }) (record s { kernel = woken.1 }),
    returned (pos 0),
  )

unfoldable pub try_wait : ℤ → System → Option (System × Reply)
try_wait sem s = if is_bad sem then some (s, returned (negsuc 0)) else do
  cou ← sem_courant sem s.sems
  if leb_ℤ (cou.val -ℤ pos 1) (pos 0)
      then some (s, returned (negsuc 2))
      else if ltb_ℤ (cou.val -ℤ pos 1) (negsuc 32767)
      then some (s, returned (negsuc 1))
      else if ltb_ℤ (pos 0) cou.val
      then some (store sem (record cou { val = cou.val -ℤ pos 1 }) s, returned (pos 0))
      else some (s, returned (pos 0))

-- The end of `wait`, on the semaphore as it is then; `est_bloque` says that the caller had blocked.
unfoldable pub wait_end : Semaphore → Bool → ℤ
wait_end cou est_bloque =
    if cou.sid ==ℤ negsuc 0 then negsuc 2 else if est_bloque then negsuc 3 else pos 0

-- The part of `wait` in which the caller blocks. It is suspended, and `wait_end` gives its result
-- when it runs again.
unfoldable pub wait_blocked : ℤ → Option ℕ → Semaphore → System → Option (System × Reply)
wait_blocked sem node cou s = do
  pid ← getpid s.kernel
  cou ← add_proc_bloque node cou pid
  (k, switched) ← bloque_sur_semaphore s.kernel
  some (
    store sem cou (record s { kernel = k }),
    if switched then suspended else returned (wait_end cou true),
  )

unfoldable pub wait : ℤ → Option ℕ → System → Option (System × Reply)
wait sem node s = if is_bad sem then some (s, returned (negsuc 0)) else do
  cou ← sem_courant sem s.sems
  if ltb_ℤ (cou.val -ℤ pos 1) (negsuc 32767)
      then some (s, returned (negsuc 1))
      else let cou = record cou { val = cou.val -ℤ pos 1 } in
        if ltb_ℤ cou.val (pos 0)
        then wait_blocked sem node cou s
        else some (store sem cou s, returned (wait_end cou false))
