-- ===== src/Process/State.antt =====
-- The types of process.h, and the lists of process.c as queue.h leaves them (see `Queue`).
use advanced_operating_syste.Base.{
  ℕ, Bool, true, false, ◌||◌, not, Option, none, some, List, [], ◌∷◌, ◌==◌, if◌then◌else◌, ◌>>◌,
  assert, has,
}
use advanced_operating_syste.Base.Int.{ℤ, ◌==ℤ◌}
use advanced_operating_syste.Queue.Insert.{insert}

pub data ProcessState : Type 0 where
  chosen activable sleeping blocked_on_sem blocked_on_msg_send blocked_on_msg_rcv zombie :
      ProcessState

abbrev pub is_zombie : ProcessState → Bool
is_zombie zombie = true
is_zombie _ = false

-- A stack is its address and its words; `children` holds the pids of the linked list, in order.
pub record Process : Type 0 where
  pub pid : ℤ
  pub prio : ℕ
  pub name : List ℕ
  pub state : ProcessState
  pub saved_sp : ℕ
  pub wake_up_time : ℤ
  pub process_stack : ℕ × List ℕ
  pub retval : ℤ
  pub parent_pid : ℤ
  pub children : List ℤ

-- The globals. `procs` is the memory of the structures, by address; `running` is the pointer
-- `chosen`, `none` while it is NULL. A list runs from `head->next` to `head->prev`.
pub record Kernel : Type 0 where
  pub procs : ℕ → Process
  pub process_list : List ℕ
  pub sleeping_list : List ℕ
  pub to_kill_list : List ℕ
  pub running : Option ℕ
  pub pidmax : ℤ

abbrev pub prio_of : Kernel → ℕ → ℕ
prio_of s p = (s.procs p).prio

abbrev pub state_of : Kernel → ℕ → ProcessState
state_of s p = (s.procs p).state

abbrev pub update : (ℕ → Process) → ℕ → Process → ℕ → Process
update f p v q = if q == p then v else f q

abbrev pub set_state : ℕ → ProcessState → Kernel → Kernel
set_state p st s = record s { procs = update s.procs p (record (s.procs p) { state = st }) }

-- The links of an element are null exactly while it is in no list.
unfoldable pub linked : Kernel → ℕ → Bool
linked s p = has p s.process_list || (has p s.sleeping_list || has p s.to_kill_list)

-- queue_add(p, &process_list, ...), and so for the other two lists.
unfoldable pub add_process_list : ℕ → Kernel → Option Kernel
add_process_list p s = do
  assert (not (linked s p))
  some (record s { process_list = insert (prio_of s) p s.process_list })

unfoldable pub add_sleeping_list : ℕ → Kernel → Option Kernel
add_sleeping_list p s = do
  assert (not (linked s p))
  some (record s { sleeping_list = insert (prio_of s) p s.sleeping_list })

unfoldable pub add_to_kill_list : ℕ → Kernel → Option Kernel
add_to_kill_list p s = do
  assert (not (linked s p))
  some (record s { to_kill_list = insert (prio_of s) p s.to_kill_list })

unfoldable pub remove : ℕ → List ℕ → List ℕ
remove p [] = []
remove p (x ∷ xs) = if p == x then xs else x ∷ remove p xs

-- queue_del(p, links), whichever list the element is in.
unfoldable pub queue_del : ℕ → Kernel → Option Kernel
queue_del p s = do
  assert (linked s p)
  some (record s {
    process_list = remove p s.process_list;
    sleeping_list = remove p s.sleeping_list;
    to_kill_list = remove p s.to_kill_list;
  })

-- The first element that a `queue_for_each` loop stops at.
unfoldable pub find : (Process → Bool) → (ℕ → Process) → List ℕ → Option ℕ
find test procs [] = none
find test procs (x ∷ xs) = if test (procs x) then some x else find test procs xs

abbrev pub has_pid : ℤ → Process → Bool
has_pid pid p = p.pid ==ℤ pid
