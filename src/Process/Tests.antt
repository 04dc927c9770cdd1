-- ===== src/Process/Tests.antt =====
-- Examples for kernel/process.c: two processes, of which the first runs and the second is ready.
use advanced_operating_syste.Base.{
  ℕ, ◌≡◌, ◌<◌, ◌≤◌, ◌+◌, ◌-◌, ◌%◌, ◌^◌, length, get_elem?, false, ◌⊎◌, ap, refl, true, inr, none,
  some, List, [], ◌∷◌, arith, ◌==◌, if◌then◌else◌, ◌>>=◌,
}
use advanced_operating_syste.Base.Int.{ℤ, pos, negsuc, ◌+ℤ◌, leb_ℤ}
use advanced_operating_syste.Queue.Insert.{insert}
use advanced_operating_syste.Queue.Order.{count}
use advanced_operating_syste.Process.State.{
  ProcessState, chosen, activable, blocked_on_sem, Process, Kernel, set_state, find,
  add_to_kill_list, linked,
}
use advanced_operating_syste.Process.Schedule.{
  ordonnance, reap, queue_out, dispatch, put_back, bloque_sur_semaphore, passe_activable, exit,
  mon_nom,
}
use advanced_operating_syste.Process.Calls.{
  Program, Allocations, returned, start, stack_size, initial_stack, kill,
}
use advanced_operating_syste.Process.Others.{waitpid, waitpid_loop, for}
use advanced_operating_syste.Process.Places.{runs, listed, places}
use advanced_operating_syste.Process.Switch.{IsValid}
use advanced_operating_syste.Process.Outcome.{Outcome}
use advanced_operating_syste.Process.Choice.{ordonnance-Outcome}
use advanced_operating_syste.Process.Keeps.{PidsDiffer, Numbered, Keeps}
use advanced_operating_syste.Process.Ending.{terminated, Answers, killable, kill-Answers}
use advanced_operating_syste.Process.Blocking.{semaphore_loses}
use advanced_operating_syste.Process.Stack.{initial_stack_wraps}
use advanced_operating_syste.Process.Register.{Registered}
use advanced_operating_syste.Process.Starting.{ready_process, start-Registered}
use advanced_operating_syste.Process.Boot.{init_process_stack-IsValid}
use advanced_operating_syste.Process.Event.{blocks_on_sem, exits, starts, perform, Fits, Succeeds}
use advanced_operating_syste.Process.Reach.{here, next, Reach-IsValid}
use advanced_operating_syste.Process.Histories.{init_process_stack-Reach}
use advanced_operating_syste.Process.Waiting.{exit-waitpid}
use advanced_operating_syste.Process.Display.{
  display_title, chosen_title, list_title, bottom_rule, entry, display_list, display_chosen,
}
use advanced_operating_syste.Process.Chprio.{Chprio}

abbrev process : ℤ → ℕ → ProcessState → Process
process pid prio state = record {
  pid = pid;
  prio = prio;
  name = [];
  state = state;
  saved_sp = 0;
  wake_up_time = pos 0;
  process_stack = (0, []);
  retval = pos 0;
  parent_pid = pos 0;
  children = [];
}

-- The running process is at 100, the ready one at 200.
abbrev pair : Kernel
pair = record {
  procs = λ p.
      if p == 100
      then process (pos 1) 1 chosen
      else if p == 200
      then process (pos 2) 5 activable
      else process (pos 0) 0 activable;
  process_list = 200 ∷ [];
  sleeping_list = [];
  to_kill_list = [];
  running = some 100;
  pidmax = pos 2;
}

pair-IsValid : IsValid pair 100
unfolding places listed runs count
pair-IsValid = record {
  running = refl;
  once = λ p. ground arith;
  sorted = (tt, tt);
  alone = λ p h e. ground arith;
}

pair-PidsDiffer : PidsDiffer pair
unfolding places listed runs count
pair-PidsDiffer p q hp hq same = ground arith

ordonnance-Outcome_example : Outcome pair 100 (ordonnance pair)
ordonnance-Outcome_example = ordonnance-Outcome pair 100 pair-IsValid

-- The first process has blocked, and the second runs.
abbrev blocked : Kernel
blocked = record {
  procs = (set_state 200 chosen (set_state 100 blocked_on_sem pair)).procs;
  process_list = [];
  sleeping_list = [];
  to_kill_list = [];
  running = some 200;
  pidmax = pos 2;
}

blocks : bloque_sur_semaphore pair ≡ some (blocked, true)
unfolding bloque_sur_semaphore ordonnance reap queue_out dispatch put_back
blocks = refl

semaphore_loses_example : (places blocked 100 ≡ 0) × (passe_activable (pos 1) blocked ≡ blocked)
semaphore_loses_example = semaphore_loses pair blocked 100 pair-IsValid pair-PidsDiffer blocks

abbrev program : Program
program = record { code = 4096; arg = 7; hdl_ret = 8192 }

abbrev memory : Allocations
memory = record { process_at = some 300; stack_at = some 65536; child_at = some 400 }

abbrev no_stack : Allocations
no_stack = record { process_at = some 300; stack_at = none; child_at = none }

initial_stack_wraps_example :
    let n = 1073741828 % 2 ^ 30 in
    (3 ≤ n
      → (words : List ℕ) × (initial_stack program 1073741828 ≡ some words)
        × (length words ≡ n)
        × (get_elem? words (n - 3) ≡ some 4096)
        × (get_elem? words (n - 2) ≡ some 8192)
        × (get_elem? words (n - 1) ≡ some 7))
    × (n < 3 → initial_stack program 1073741828 ≡ none)
initial_stack_wraps_example = initial_stack_wraps program 1073741828 (omega arith) (omega arith)

start-Registered_example :
    (words : List ℕ) × (k : Kernel) × (initial_stack program (stack_size 8) ≡ some words)
    × Registered pair 100 300
        (ready_process (pos 2 +ℤ pos 1) (104 ∷ []) (pos 5) 65536 (stack_size 8) words)
        k
    × (((1 < 5) × Answers k 100 (pos 2 +ℤ pos 1) (start program (104 ∷ []) 8 (pos 5) memory pair))
        ⊎ ((5 ≤ 1)
            × (start program (104 ∷ []) 8 (pos 5) memory pair
                ≡ some (k, returned (pos 2 +ℤ pos 1)))))
unfolding ◌+ℤ◌ places listed runs count
start-Registered_example =
    start-Registered program (104 ∷ []) 8 (pos 5) memory pair 100 300 65536 400 pair-IsValid refl
      refl (omega arith) (omega arith) refl refl refl

blocks_event : perform blocks_on_sem pair ≡ some blocked
unfolding perform
blocks_event = ap (λ o. o >>= λ r. some r.0) blocks

Reach-IsValid_example :
    ((z : ℕ) × IsValid blocked z)
    × Keeps pair blocked
    × Succeeds blocked (perform (exits (pos 3)) blocked)
Reach-IsValid_example =
    Reach-IsValid {s = pair} {t = blocked} {c = 100} (exits (pos 3)) pair-IsValid
      (next blocks_on_sem here tt blocks_event) tt

-- Memory for the idle process, and the kernel that it starts.
abbrev idle_memory : Allocations
idle_memory = record { process_at = some 100; stack_at = some 65536; child_at = none }

abbrev no_process : ℕ → Process
no_process q = process (pos 0) 0 activable

abbrev idle_kernel : Kernel
idle_kernel = (init_process_stack-IsValid program no_process idle_memory 100 65536 refl refl).0

start-Fits : Fits (starts program (104 ∷ []) 8 (pos 5) memory) idle_kernel
start-Fits good =
    let (_, _, _, _, _, _, _, _, nobody) =
      init_process_stack-IsValid program no_process idle_memory 100 65536 refl refl in
    (300, refl, nobody 300 refl, omega arith, inr (65536, 400, refl, refl, omega arith))

init_process_stack-Reach_example :
    ((z : ℕ) × IsValid idle_kernel z)
    × Numbered idle_kernel
    × Succeeds idle_kernel (perform (starts program (104 ∷ []) 8 (pos 5) memory) idle_kernel)
init_process_stack-Reach_example =
    init_process_stack-Reach program no_process idle_memory 100 65536 idle_kernel idle_kernel
      (starts program (104 ∷ []) 8 (pos 5) memory) refl refl
      (init_process_stack-IsValid program no_process idle_memory 100 65536 refl refl).1 here
      start-Fits

-- A child at 100 runs; its parent at 200 is ready.
abbrev family : Kernel
family = record pair {
  procs = λ p.
      if p == 100
      then process (pos 2) 1 chosen
      else if p == 200
      then record (process (pos 1) 1 activable) { children = pos 2 ∷ [] }
      else process (pos 0) 0 activable;
}

family-IsValid : IsValid family 100
unfolding places listed runs count
family-IsValid = record {
  running = refl;
  once = λ p. ground arith;
  sorted = (tt, tt);
  alone = λ p h e. ground arith;
}

family-Numbered : Numbered family
unfolding places listed runs count
family-Numbered = record { differ = λ p q hp hq same. ground arith; below = λ p h. ground arith }

-- The child has exited with 7, and the parent runs.
abbrev orphaned : Kernel
orphaned = record family {
  procs = (set_state 200 chosen (terminated 100 (pos 7) family)).procs;
  process_list = [];
  to_kill_list = 100 ∷ [];
  running = some 200;
}

exits_7 : exit (pos 7) family ≡ some (orphaned, true)
unfolding exit ordonnance reap queue_out dispatch put_back add_to_kill_list linked insert
exits_7 = refl

exit-waitpid_example :
    (waitpid (pos 2) orphaned ≡ some (for 100))
    × (k : Kernel) × (waitpid_loop 100 (orphaned ∷ []) ≡ some (k, pos 7))
    × IsValid k 200
    × ((p : ℕ) → places k p + (if p == 100 then 1 else 0) ≡ places orphaned p)
exit-waitpid_example =
    exit-waitpid family orphaned orphaned 100 200 (pos 7) (pos 2) [] [] family-IsValid
      family-Numbered refl exits_7 here refl refl

-- Both processes of the pair are shown.
both_shown :
    display_list pair.process_list pair
    ≡ display_title
      ∷ chosen_title
      ∷ entry [] (pos 1) 1
      ∷ list_title
      ∷ entry [] (pos 2) 5
      ∷ bottom_rule
      ∷ []
unfolding display_list display_chosen
both_shown = refl

kill-Answers_example :
    (leb_ℤ (pos 2) (pos 0) ≡ true → kill (pos 2) pair ≡ some (pair, returned (negsuc 0)))
    × (find (killable (pos 2)) pair.procs pair.process_list ≡ none
        → kill (pos 2) pair ≡ some (pair, returned (negsuc 0)))
    × ((p : ℕ)
        → leb_ℤ (pos 2) (pos 0) ≡ false
        → find (killable (pos 2)) pair.procs pair.process_list ≡ some p
        → IsValid (terminated p (pos 0) pair) 100
          × Answers (terminated p (pos 0) pair) 100 (pos 0) (kill (pos 2) pair))
kill-Answers_example = kill-Answers pair 100 (pos 2) pair-IsValid

own_name : mon_nom pair ≡ some []
unfolding mon_nom
own_name = refl
