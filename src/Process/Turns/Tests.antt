-- ===== src/Process/Turns/Tests.antt =====
-- An example for the turns of processes: three of the highest priority, and one below.
use advanced_operating_syste.Base.{ℕ, ◌≡◌, refl, some, [], ◌∷◌, arith, ◌==◌, if◌then◌else◌}
use advanced_operating_syste.Base.Int.{pos}
use advanced_operating_syste.Queue.Order.{count}
use advanced_operating_syste.Process.State.{Kernel, Process, ProcessState, chosen, activable}
use advanced_operating_syste.Process.Places.{runs, listed, places}
use advanced_operating_syste.Process.Switch.{IsValid}
use advanced_operating_syste.Process.Fair.{InTurn}
use advanced_operating_syste.Process.Turns.{ticks, ticks-InTurn}

abbrev worker : ℕ → ProcessState → Process
worker prio state = record {
  pid = pos 1;
  prio = prio;
  name = [];
  state = state;
  saved_sp = 0;
  wake_up_time = pos 0;
  process_stack = (0, []);
  retval = pos 0;
  parent_pid = pos 0;
  children = [];
}

abbrev team : Kernel
team = record {
  procs = λ p.
      if p == 100
      then worker 5 chosen
      else if p == 300
      then worker 1 activable
      else worker 5 activable;
  process_list = 300 ∷ 200 ∷ 400 ∷ [];
  sleeping_list = [];
  to_kill_list = [];
  running = some 100;
  pidmax = pos 4;
}

team-IsValid : IsValid team 100
unfolding places listed runs count
team-IsValid = record {
  running = refl;
  once = λ p. ground arith;
  sorted = ((omega arith, (omega arith, tt)), ((omega arith, tt), (tt, tt)));
  alone = λ p h e. ground arith;
}

team-InTurn : InTurn team 100 5 (300 ∷ []) (200 ∷ 400 ∷ [])
team-InTurn = record {
  valid = team-IsValid;
  running = refl;
  level = refl;
  list = refl;
  equals = ((refl, refl), ((refl, refl), tt));
  below = (omega arith, tt);
}

ticks-InTurn_example :
    (t : Kernel) × (ticks 2 team ≡ some t) × InTurn t 200 5 (300 ∷ []) (400 ∷ 100 ∷ [])
ticks-InTurn_example = ticks-InTurn team 100 200 5 (300 ∷ []) [] (400 ∷ []) team-InTurn
