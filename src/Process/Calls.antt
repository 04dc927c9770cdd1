-- ===== src/Process/Calls.antt =====
-- The system calls of process.c.
use advanced_operating_syste.Base.{
  ℕ, ◌+◌, ◌-◌, ◌*◌, ◌/◌, ◌%◌, ◌^◌, Bool, true, false, ◌&&◌, not, Option, none, some, List, [], ◌∷◌,
  ◌++◌, if◌then◌else◌, ◌>>=◌, ◌>>◌, assert, ltb, length, set, replicate, ◌==◌,
}
use advanced_operating_syste.Base.Int.{ℤ, pos, negsuc, pos_part, ◌+ℤ◌, ltb_ℤ, leb_ℤ}
use advanced_operating_syste.Process.State.{
  ProcessState, chosen, activable, zombie, is_zombie, Process, Kernel, prio_of, update,
  add_process_list, has_pid,
}
use advanced_operating_syste.Process.Schedule.{queue_out, ordonnance, change_found}

abbrev pub process_table_size : ℤ
process_table_size = pos 64

abbrev pub maxprio : ℤ
maxprio = pos 256

abbrev pub max_name_length : ℕ
max_name_length = 64

-- "idle".
abbrev pub idle_name : List ℕ
idle_name = 105 ∷ 100 ∷ 108 ∷ 101 ∷ []

-- What a call does: it returns a value, or it has given the processor away and returns later.
pub data Reply : Type 0 where
  returned : ℤ → Reply
  suspended : Reply

abbrev pub reply : Kernel × Bool → ℤ → Kernel × Reply
reply (s, true) v = (s, suspended)
reply (s, false) v = (s, returned v)

-- What `mem_alloc` answers to the up to three requests of `start`; `none` is NULL.
pub record Allocations : Type 0 where
  pub process_at : Option ℕ
  pub stack_at : Option ℕ
  pub child_at : Option ℕ

-- The arguments of `start`, and the address of `hdl_ret`.
pub record Program : Type 0 where
  pub code : ℕ
  pub arg : ℕ
  pub hdl_ret : ℕ

-- The write of `v` at `process_stack[i]`: the distance from the start of the block wraps around at
-- 2^32 bytes, as addresses do. `none`: outside the block.
unfoldable pub store : List ℕ → ℕ → ℕ → Option (List ℕ)
store words i v = do
  let at = i * 4 % 2 ^ 32 / 4
  assert (ltb at (length words))
  some (set words at v)

-- The three words on a new stack. The block has as many words as the request, which is a number
-- of bytes modulo 2^32, and `mem_alloc` has cleared it.
unfoldable pub initial_stack : Program → ℕ → Option (List ℕ)
initial_stack prog ssize = do
  words ← store (replicate ((ssize * 4) % 2 ^ 32 / 4) 0) (ssize - 3) prog.code
  words ← store words (ssize - 2) prog.hdl_ret
  store words (ssize - 1) prog.arg

unfoldable pub stack_size : ℕ → ℕ
stack_size ssize = if ltb ssize 5 then 5 else ssize

-- What `mem_alloc` answers to the request for the stack: NULL for a request of no bytes.
unfoldable pub stack_block : ℕ → Allocations → Option ℕ
stack_block size mem = if size * 4 % 2 ^ 32 == 0 then none else mem.stack_at

-- The second half of `start`: the new process is made known to its parent, the running process
-- if there is one, and to the scheduler.
unfoldable pub register : Option ℕ → ℕ → Allocations → Kernel → Option (Kernel × Bool)
register none p mem s = do s ← add_process_list p s; some (s, false)
register (some c) p mem s = do
  _ ← mem.child_at
  let parent = s.procs c
  let procs =
      update s.procs c (record parent { children = parent.children ++ (s.procs p).pid ∷ [] })
  let procs = update procs p (record (procs p) { parent_pid = parent.pid })
  s ← add_process_list p (record s { procs = procs })
  if ltb (prio_of s c) (prio_of s p) then ordonnance s else some (s, false)

-- The state of a new process, by `process_list` and `chosen`.
unfoldable pub first_state : List ℕ → Option ℕ → ProcessState
first_state [] none = chosen
first_state [] (some _) = activable
first_state (_ ∷ _) _ = activable

abbrev pub is_startable : ℤ → ℤ → Bool
is_startable pidmax prio =
    ltb_ℤ pidmax process_table_size && (leb_ℤ (pos 1) prio && leb_ℤ prio maxprio)

-- The structure before its stack is there; the rest is still as `mem_alloc` cleared it.
unfoldable pub new_process : ℤ → List ℕ → ProcessState → Process
new_process pid nom state = record {
  pid = pid;
  prio = 0;
  name = nom;
  state = state;
  saved_sp = 0;
  wake_up_time = pos 0;
  process_stack = (0, []);
  retval = pos 0;
  parent_pid = pos 0;
  children = [];
}

-- `start` with the value that `chosen` has; `nom` is the name without its final zero. `strcpy` past
-- the field of the structure is a fault.
unfoldable pub start_under :
    Option ℕ → Program → List ℕ → ℕ → ℤ → Allocations → Kernel → Option (Kernel × Reply)
start_under running prog nom ssize prio mem s =
    let pidmax = s.pidmax +ℤ pos 1 in
    if not (is_startable pidmax prio) then some (s, returned (negsuc 0)) else do
      p ← mem.process_at
      assert (ltb (length nom) max_name_length)
      let size = stack_size ssize
      let fresh = new_process pidmax nom (first_state s.process_list running)
      elim (stack_block size mem) [
        | none ↦
            some (record s { pidmax = pidmax; procs = update s.procs p fresh }, returned (negsuc 0))
        | some base ↦ do
          words ← initial_stack prog size
          let ready = record fresh {
            prio = pos_part prio;
            saved_sp = (base + 4 * (size - 3)) % 2 ^ 32;
            wake_up_time = negsuc 0;
            process_stack = (base, words);
          }
          r ← register running p mem (record s { pidmax = pidmax; procs = update s.procs p ready })
          some (reply r pidmax)
      ]

unfoldable pub start : Program → List ℕ → ℕ → ℤ → Allocations → Kernel → Option (Kernel × Reply)
start prog nom ssize prio mem s = start_under s.running prog nom ssize prio mem s

-- What `start` returns when its caller has the processor again: the global, as it is then.
unfoldable pub start_resume : Kernel → ℤ
start_resume s = s.pidmax

-- `init_process_stack`: the process that `start` makes of `idle` becomes the running one.
unfoldable pub init_process_stack : Program → Allocations → Kernel → Option Kernel
init_process_stack idle mem s = do
  (s, _) ← start idle idle_name 1024 (pos 1) mem s
  some (elim (queue_out s) [
    | none ↦ record s { running = none }
    | some (p, rest) ↦ record rest { running = some p }
  ])

unfoldable pub kill : ℤ → Kernel → Option (Kernel × Reply)
kill pid s = if leb_ℤ pid (pos 0) then some (s, returned (negsuc 0)) else do
  (s, found) ←
      change_found (λ p. has_pid pid p && not (is_zombie p.state))
        (λ p. record p { state = zombie; retval = pos 0 }) s
  some
      (elim found [ none ↦ (s, returned (negsuc 0)) | some switched ↦ reply (s, switched) (pos 0) ])
