-- ===== src/Message/Calls.antt =====
-- The calls of message_queue.c on a whole queue. A call that gives the processor away is paused,
-- and what it does when its process runs again is `resume`, on the memory as it is then.
use advanced_operating_syste.Base.{
  ℕ, zero, suc, ◌+◌, ◌-◌, ◌*◌, ◌/◌, ◌%◌, ◌^◌, Bool, ◌&&◌, Option, none, some, List, [], ◌∷◌, ◌++◌,
  ◌==◌, if◌then◌else◌, ◌>>=◌, ◌>>◌, assert, ltb, get_elem?, set,
}
use advanced_operating_syste.Base.Int.{ℤ, pos, negsuc, pos_part, ◌+ℤ◌, ◌-ℤ◌, ltb_ℤ, ◌==ℤ◌}
use advanced_operating_syste.Process.Schedule.{unblock}
use advanced_operating_syste.Message.State.{
  nbqueue, System, write_at, deref, assign, load, alloc, free, find_queue,
}

abbrev pub process_table_size : ℕ
process_table_size = 64

-- Where a paused call goes on: in the loop of `pdelete` or `preset`, with the index of the queue
-- and the next position; after the blocking or the waking in `preceive`; or at the end of `psend`.
pub data Pause : Type 0 where
  deleting resetting : ℕ → ℕ → Pause
  receiving : ℕ → Pause
  woken : ℕ → ℤ → Pause
  sending : Pause

-- `received` is the value 0 with the message that was written through the pointer.
pub data Answer : Type 0 where
  returned : ℤ → Answer
  received : ℤ → Answer
  paused : Pause → Answer

-- What `pcount` returns, and the values that it writes through the pointer, in order, if there is
-- one.
unfoldable pub pcount : ℤ → Bool → System → Option (ℤ × List ℤ)
pcount fid count s = do
  i ← find_queue fid s
  let counted = do
    q ← deref i s
    let blocked = pos q.nb_p_bloques
    let first = if q.nb_message ==ℤ pos 0 then (pos 0 -ℤ blocked) ∷ [] else []
    some (pos 0, first ++ (q.nb_message +ℤ blocked) ∷ [])
  if i == s.nb_queue then some (negsuc 0, []) else if count then counted else some (pos 0, [])

-- The addresses that the allocator answers to the three requests of `pcreate`.
pub record Allocations : Type 0 where
  pub queues_at : ℕ
  pub messages_at : ℕ
  pub p_bloques_at : ℕ

-- The pointers are allocated with the first call, as a cleared block.
unfoldable pub alloc_queues : ℕ → System → System
alloc_queues at s = elim s.queues [
  | some _ ↦ s
  | none ↦ if at == 0 then s else record s { queues = some (0 ∷ 0 ∷ 0 ∷ 0 ∷ 0 ∷ []) }
]

-- The writes into the structure at the index that `nb_queue` has become.
unfoldable pub fill_queue : ℕ → ℤ → Allocations → System → Option System
fill_queue i count mem s = do
  q ← deref i s
  let q = record q { fid = pos i -ℤ pos 1; nb_message = pos 0; size_max = count }
  s ← assign i (record q { messages = mem.messages_at }) s
  let s = alloc mem.messages_at (pos_part count * 4 % 2 ^ 32 / 4) s
  q ← deref i s
  s ← assign i (record q { nb_p_bloques = 0; p_bloques = mem.p_bloques_at }) s
  some (alloc mem.p_bloques_at process_table_size s)

unfoldable pub pcreate : ℤ → Allocations → System → Option (System × ℤ)
pcreate count mem s =
    let s = alloc_queues mem.queues_at s in
    let s' = record s { nb_queue = s.nb_queue + 1 } in
    let created = fill_queue s'.nb_queue count mem s' in
    if ltb (s.nb_queue + 1) nbqueue && ltb_ℤ (pos 0) count
    then (created >>= λ s. some (s, pos s.nb_queue -ℤ pos 1))
    else some (s, negsuc 0)

-- The loop that unblocks the processes of a queue from position `j` on, `n` of them: the position
-- to go on from if the processor was given away.
unfoldable pub unblock_from : ℕ → ℕ → ℕ → System → Option (System × Option ℕ)
unblock_from zero i j s = some (s, none)
unblock_from (suc n) i j s = do
  q ← deref i s
  pid ← load q.p_bloques j s
  (k, found) ← unblock pid s.kernel
  let s = record s { kernel = k }
  let rest = unblock_from n i (j + 1) s
  elim found [ none ↦ rest | some switched ↦ if switched then some (s, some (j + 1)) else rest ]

unfoldable pub unblock_all : ℕ → ℕ → System → Option (System × Option ℕ)
unblock_all i j s = do q ← deref i s; unblock_from (q.nb_p_bloques - j) i j s

-- `pdelete` after the loop: the last queue takes the place of the one deleted, and is freed, with
-- the length that the source writes, where the structure has 24 bytes.
unfoldable pub pdelete_end : ℕ → System → Option (System × Answer)
pdelete_end i s = do
  let s = record s { nb_queue = s.nb_queue - 1 }
  queues ← s.queues
  last ← get_elem? queues s.nb_queue
  assert (ltb i nbqueue)
  let s = record s { queues = some (set queues i last) }
  q ← deref i s
  assert ((16 + 256 + pos_part q.size_max * 4) % 2 ^ 32 == 24)
  some (record s { structs = write_at s.structs last none }, returned (pos 0))

unfoldable pub pdelete_loop : ℕ → ℕ → System → Option (System × Answer)
pdelete_loop i j s = do
  (s, left) ← unblock_all i j s
  elim left [ none ↦ pdelete_end i s | some j ↦ some (s, paused (deleting i j)) ]

unfoldable pub pdelete : ℤ → System → Option (System × Answer)
pdelete fid s = do
  i ← find_queue fid s
  if i == s.nb_queue then some (s, returned (negsuc 0)) else pdelete_loop i 0 s

-- `preset` after the loop. The pointers to the two blocks that are freed stay in the structure.
unfoldable pub preset_end : ℕ → System → Option (System × Answer)
preset_end i s = do
  q ← deref i s
  s ← assign i (record q { nb_p_bloques = 0 }) s
  s ← free q.p_bloques (process_table_size * 4) s
  q ← deref i s
  s ← assign i (record q { nb_message = pos 0 }) s
  s ← free q.messages (pos_part q.size_max * 4 % 2 ^ 32) s
  some (s, returned (pos 0))

unfoldable pub preset_loop : ℕ → ℕ → System → Option (System × Answer)
preset_loop i j s = do
  (s, left) ← unblock_all i j s
  elim left [ none ↦ preset_end i s | some j ↦ some (s, paused (resetting i j)) ]

unfoldable pub preset : ℤ → System → Option (System × Answer)
preset fid s = do
  i ← find_queue fid s
  if i == s.nb_queue then some (s, returned (negsuc 0)) else preset_loop i 0 s
