-- ===== src/Process/Boot.antt =====
-- The kernel as the loader leaves it, and `init_process_stack`.
use advanced_operating_syste.Base.{
  ℕ, false, ◌==◌, ◌+◌, ◌*◌, ◌%◌, ◌^◌, ◌≡◌, refl, none, some, [], arith,
}
use advanced_operating_syste.Base.Int.{pos, negsuc, ◌+ℤ◌}
use advanced_operating_syste.Queue.Insert.{insert}
use advanced_operating_syste.Queue.Order.{count}
use advanced_operating_syste.Process.State.{
  Kernel, Process, chosen, state_of, prio_of, add_process_list, linked, update,
}
use advanced_operating_syste.Process.Schedule.{queue_out}
use advanced_operating_syste.Process.Calls.{
  Program, Allocations, start, start_under, register, first_state, new_process, stack_size,
  idle_name, init_process_stack,
}
use advanced_operating_syste.Process.Places.{runs, listed, places}
use advanced_operating_syste.Process.Switch.{IsValid}
use advanced_operating_syste.Process.Stack.{initial_stack_frame, stack_block-some}

-- The initial values of the globals of process.c.
unfoldable pub boot : (ℕ → Process) → Kernel
boot procs = record {
  procs = procs;
  process_list = [];
  sleeping_list = [];
  to_kill_list = [];
  running = none;
  pidmax = negsuc 0;
}

-- With memory for its structure and its stack, `init_process_stack` leaves one process, the idle
-- one, with pid 0 and priority 1. It runs, no other one is anywhere, and the scheduler's invariant
-- holds from then on.
pub init_process_stack-IsValid :
    (idle : Program) (procs : ℕ → Process) (mem : Allocations) (p base : ℕ)
    → mem.process_at ≡ some p
    → mem.stack_at ≡ some base
    → (s : Kernel) × (init_process_stack idle mem (boot procs) ≡ some s)
      × IsValid s p
      × (state_of s p ≡ chosen)
      × ((s.procs p).pid ≡ pos 0)
      × (prio_of s p ≡ 1)
      × (s.pidmax ≡ pos 0)
      × (s.process_list ≡ [])
      × ((q : ℕ) → (q == p) ≡ false → places s q ≡ 0)
unfolding init_process_stack boot start start_under register first_state stack_size add_process_list
    linked insert queue_out new_process places listed runs count ◌+ℤ◌
init_process_stack-IsValid idle procs mem p base at_p at_base =
    let frame = initial_stack_frame idle 1024 (omega arith) (omega arith) in
    let ready : Process = record (new_process (pos 0) idle_name chosen) {
      prio = 1;
      saved_sp = (base + 4 * 1021) % 2 ^ 32;
      wake_up_time = negsuc 0;
      process_stack = (base, frame.0);
    } in
    let s : Kernel = record (boot procs) {
      running = some p;
      pidmax = pos 0;
      procs = update procs p ready;
    } in
    (
      s,
      simp (at_p, stack_block-some mem 1024 base (omega arith) (omega arith) at_base, frame.1),
      record {
        running = refl;
        once = λ q. ground arith;
        sorted = tt;
        alone = λ q h e. ground arith;
      },
      ground arith,
      ground arith,
      ground arith,
      refl,
      refl,
      λ q n. ground arith,
    )
