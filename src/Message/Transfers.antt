-- ===== src/Message/Transfers.antt =====
-- message_queue.c: `preceive` and `psend`, and what a paused call does when its process runs again.
use advanced_operating_syste.Base.{
  ℕ, ◌+◌, ◌-◌, ◌&&◌, Option, none, some, ◌==◌, if◌then◌else◌, ◌>>=◌, ltb,
}
use advanced_operating_syste.Base.Int.{ℤ, pos, negsuc, pos_part, ◌+ℤ◌, ◌-ℤ◌, ltb_ℤ, ◌==ℤ◌}
use advanced_operating_syste.Process.Schedule.{unblock, block_send, block_recv, getpid}
use advanced_operating_syste.Message.State.{
  MessageQueue, System, deref, assign, load, store, shift_from, find_queue,
}
use advanced_operating_syste.Message.Calls.{
  Answer, Pause, pdelete_loop, preset_loop, deleting, resetting, receiving, woken, sending,
  returned, received, paused,
}

-- `preceive` after the waking: the first process leaves the list.
unfoldable pub preceive_end : ℕ → ℤ → System → Option (System × Answer)
preceive_end i message s = do
  q ← deref i s
  let q = record q { nb_p_bloques = q.nb_p_bloques - 1 }
  s ← assign i q s
  s ← shift_from q.nb_p_bloques 0 q.p_bloques s
  some (s, received message)

-- The first message is taken, and the others move up; in a queue that was full a process is woken.
unfoldable pub take_message : ℕ → MessageQueue → System → Option (System × Answer)
take_message i q s = do
  message ← load q.messages 0 s
  let q = record q { nb_message = q.nb_message -ℤ pos 1 }
  s ← assign i q s
  s ← shift_from (pos_part q.nb_message) 0 q.messages s
  let was_full = q.nb_message ==ℤ (q.size_max -ℤ pos 1)
  let wakes = do
    pid ← load q.p_bloques 0 s
    (k, found) ← unblock pid s.kernel
    let s = record s { kernel = k }
    let done = preceive_end i message s
    elim found [
      | none ↦ done
      | some switched ↦ if switched then some (s, paused (woken i message)) else done
    ]
  if was_full && ltb 0 q.nb_p_bloques then wakes else some (s, received message)

-- `preceive` after the test for an empty queue.
unfoldable pub preceive_rest : ℕ → System → Option (System × Answer)
preceive_rest i s = do
  q ← deref i s
  if ltb_ℤ (pos 0) q.nb_message then take_message i q s else some (s, returned (negsuc 0))

-- The blocking in an empty queue. The process is written two places behind the last one.
unfoldable pub preceive_blocks : ℕ → MessageQueue → System → Option (System × Answer)
preceive_blocks i q s = do
  let q = record q { nb_p_bloques = q.nb_p_bloques + 1 }
  s ← assign i q s
  pid ← getpid s.kernel
  s ← store q.p_bloques (q.nb_p_bloques + 1) pid s
  (k, found) ← block_recv pid s.kernel
  let s = record s { kernel = k }
  let rest = preceive_rest i s
  elim found [
    | none ↦ rest
    | some switched ↦ if switched then some (s, paused (receiving i)) else rest
  ]

unfoldable pub preceive : ℤ → System → Option (System × Answer)
preceive fid s = do
  i ← find_queue fid s
  let received = do
    q ← deref i s
    if q.nb_message ==ℤ pos 0 then preceive_blocks i q s else preceive_rest i s
  if i == s.nb_queue then some (s, returned (negsuc 0)) else received

-- An index below 0 is outside the block of pointers.
abbrev pub index : ℤ → Option ℕ
index (pos i) = some i
index (negsuc i) = none

-- `psend` looks for the queue, but then uses the number that it is given as the index.
unfoldable pub psend : ℤ → ℤ → System → Option (System × Answer)
psend fid message s = do
  i ← find_queue fid s
  let sent = do
    i ← index fid
    q ← deref i s
    let blocks = do
      pid ← getpid s.kernel
      (k, found) ← block_send pid s.kernel
      let s = record s { kernel = k }
      some (
        s,
        elim found [
          | none ↦ returned (pos 0)
          | some switched ↦ if switched then paused sending else returned (pos 0)
        ],
      )
    let counted = do
      s ← assign i (record q { nb_message = message +ℤ pos 1 }) s
      some (s, returned (pos 0))
    if (q.nb_message ==ℤ pos 0) && ltb 0 q.nb_p_bloques
        then some (s, returned (pos 0))
        else if q.nb_message ==ℤ q.size_max
        then blocks
        else counted
  if i == s.nb_queue then some (s, returned (negsuc 0)) else sent

unfoldable pub resume : Pause → System → Option (System × Answer)
resume (deleting i j) s = pdelete_loop i j s
resume (resetting i j) s = preset_loop i j s
resume (receiving i) s = preceive_rest i s
resume (woken i message) s = preceive_end i message s
resume sending s = some (s, returned (pos 0))
