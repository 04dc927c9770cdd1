-- ===== src/Message/State.antt =====
-- The structures of message_queue.h in memory, and the accesses of message_queue.c to them. `none`
-- is an access through NULL or outside a block, or `mem_bug`, which stops the machine.
use advanced_operating_syste.Base.{
  ℕ, zero, suc, ◌+◌, ◌*◌, not, Option, none, some, List, ◌==◌, if◌then◌else◌, ◌>>=◌, ◌>>◌, assert,
  ltb, get_elem?, set, length, replicate,
}
use advanced_operating_syste.Base.Int.{ℤ, pos, ◌==ℤ◌}
use advanced_operating_syste.Process.State.{Kernel}

abbrev pub nbqueue : ℕ
nbqueue = 5

-- `messages` and `p_bloques` are addresses of blocks of `int`.
pub record MessageQueue : Type 0 where
  pub fid : ℤ
  pub nb_message : ℤ
  pub size_max : ℤ
  pub messages : ℕ
  pub nb_p_bloques : ℕ
  pub p_bloques : ℕ

-- The globals of message_queue.c, the memory that they lead to, by address, and the kernel.
-- `queues` is `none` while the pointer is NULL, and otherwise the five pointers of its block.
pub record System : Type 0 where
  pub kernel : Kernel
  pub nb_queue : ℕ
  pub queues : Option (List ℕ)
  pub structs : ℕ → Option MessageQueue
  pub blocks : ℕ → Option (List ℤ)

abbrev pub write_at {ℓ} : {A : Type ℓ} → (ℕ → A) → ℕ → A → ℕ → A
write_at f p v q = if q == p then v else f q

-- The pointer queues[i].
unfoldable pub pointer : ℕ → System → Option ℕ
pointer i s = do queues ← s.queues; get_elem? queues i

-- A read and a write of *queues[i].
unfoldable pub deref : ℕ → System → Option MessageQueue
deref i s = do p ← pointer i s; assert (not (p == 0)); s.structs p

unfoldable pub assign : ℕ → MessageQueue → System → Option System
assign i q s = do
  p ← pointer i s
  _ ← deref i s
  some (record s { structs = write_at s.structs p (some q) })

-- A read and a write of an entry of a block.
unfoldable pub load : ℕ → ℕ → System → Option ℤ
load p j s = do b ← s.blocks p; get_elem? b j

unfoldable pub store : ℕ → ℕ → ℤ → System → Option System
store p j v s = do
  b ← s.blocks p
  assert (ltb j (length b))
  some (record s { blocks = write_at s.blocks p (some (set b j v)) })

-- for (j = 0; j < n; j++) p[j] = p[j + 1]
unfoldable pub shift_from : ℕ → ℕ → ℕ → System → Option System
shift_from zero j p s = some s
shift_from (suc n) j p s = do v ← load p (j + 1) s; s ← store p j v s; shift_from n (j + 1) p s

-- The allocator gives a cleared block of `n` numbers at the address that it answers; 0 is NULL.
unfoldable pub alloc : ℕ → ℕ → System → System
alloc p n s =
    if p == 0 then s else record s { blocks = write_at s.blocks p (some (replicate n (pos 0))) }

-- It takes back a block only with the length in bytes that it was asked for with.
unfoldable pub free : ℕ → ℕ → System → Option System
free p bytes s = if bytes == 0 then some s else do
  b ← s.blocks p
  assert (length b * 4 == bytes)
  some (record s { blocks = write_at s.blocks p none })

-- The loop that looks for a queue: its index, or `nb_queue`. `n` counts the queues from `i` on.
unfoldable pub find_from : ℤ → ℕ → ℕ → System → Option ℕ
find_from fid zero i s = some i
find_from fid (suc n) i s = do
  q ← deref i s
  if q.fid ==ℤ fid then some i else find_from fid n (i + 1) s

unfoldable pub find_queue : ℤ → System → Option ℕ
find_queue fid s = find_from fid s.nb_queue 0 s
