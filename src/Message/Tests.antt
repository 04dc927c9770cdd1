-- ===== src/Message/Tests.antt =====
-- Examples for kernel/message_queue.c: no queue, and a queue with the messages 7 and 8.
use advanced_operating_syste.Base.{
  ◌≡◌, inl, refl, Option, none, some, [], ◌∷◌, ◌==◌, if◌then◌else◌, replicate, ◌>>=◌,
}
use advanced_operating_syste.Base.Int.{pos, negsuc, ◌+ℤ◌, ◌-ℤ◌}
use advanced_operating_syste.Process.State.{
  Kernel, chosen, blocked_on_msg_rcv, find, add_process_list, linked,
}
use advanced_operating_syste.Process.Schedule.{
  unblock, change_found, ordonnance, reap, queue_out, dispatch, put_back,
}
use advanced_operating_syste.Queue.Insert.{insert}
use advanced_operating_syste.Message.State.{
  MessageQueue, System, deref, pointer, load, find_queue, find_from, shift_from, assign, store,
}
use advanced_operating_syste.Message.Calls.{
  Answer, Allocations, returned, paused, deleting, received, pcreate, alloc_queues, pdelete,
  pdelete_loop, pdelete_end, unblock_all, unblock_from,
}
use advanced_operating_syste.Message.Transfers.{preceive, preceive_rest, psend, take_message}
use advanced_operating_syste.Message.Dormant.{Refuses, here, next, creates, perform, Reach-Refuses}

abbrev kernel : Kernel
kernel = record {
  procs = λ p. record {
    pid = pos p;
    prio = 1;
    name = [];
    state = chosen;
    saved_sp = 0;
    wake_up_time = pos 0;
    process_stack = (0, []);
    retval = pos 0;
    parent_pid = pos 0;
    children = [];
  };
  process_list = [];
  sleeping_list = [];
  to_kill_list = [];
  running = some 1;
  pidmax = pos 1;
}

abbrev boot : System
boot = record {
  kernel = kernel;
  nb_queue = 0;
  queues = none;
  structs = λ p. none;
  blocks = λ p. none;
}

abbrev memory : Allocations
memory = record { queues_at = 40; messages_at = 50; p_bloques_at = 60 }

-- A call with a count of 0 leaves the block of pointers behind.
abbrev after_call : System
after_call = record boot { queues = some (0 ∷ 0 ∷ 0 ∷ 0 ∷ 0 ∷ []) }

Reach-Refuses_example : Refuses after_call
unfolding perform pcreate alloc_queues
Reach-Refuses_example =
    Reach-Refuses {s = boot} (record { no_queue = refl; no_pointer = inl refl })
      (next {a = returned (negsuc 0)} (creates (pos 0) memory) here refl)

abbrev queue : MessageQueue
queue = record {
  fid = pos 0;
  nb_message = pos 2;
  size_max = pos 4;
  messages = 20;
  nb_p_bloques = 0;
  p_bloques = 30;
}

abbrev loaded : System
loaded = record boot {
  nb_queue = 1;
  queues = some (10 ∷ 0 ∷ 0 ∷ 0 ∷ 0 ∷ []);
  structs = λ p. if p == 10 then some queue else none;
  blocks = λ p.
      if p == 20
      then some (pos 7 ∷ pos 8 ∷ pos 0 ∷ pos 0 ∷ [])
      else if p == 30
      then some (replicate 64 (pos 0))
      else none;
}

-- The queue, empty, and a message 2 that is received as 7.
abbrev emptied : System
emptied = record loaded {
  structs = λ p. if p == 10 then some (record queue { nb_message = pos 0 }) else none;
}

sent_and_received :
    psend (pos 0) (pos 2) emptied >>= (λ r. preceive (pos 0) r.0) >>= (λ r. some r.1)
    ≡ some (received (pos 7))
unfolding psend preceive preceive_rest take_message shift_from find_queue find_from deref pointer
    assign load store ◌+ℤ◌ ◌-ℤ◌
sent_and_received = refl

-- The same queue with a process, at 2, that waits.
abbrev waiting : System
waiting = record loaded {
  kernel = record kernel {
    procs = λ p.
        if p == 2 then record (kernel.procs 2) { state = blocked_on_msg_rcv } else kernel.procs p;
    process_list = 2 ∷ [];
  };
  structs = λ p. if p == 10 then some (record queue { nb_p_bloques = 1 }) else none;
  blocks = λ p. if p == 30 then some (pos 2 ∷ replicate 63 (pos 0)) else none;
}

abbrev run : Option (System × Answer)
run = pdelete (pos 0) waiting

-- The process is made ready and has the processor at once.
abbrev suspended : System
suspended = elim run [ none ↦ waiting | some r ↦ r.0 ]

paused_run : run ≡ some (suspended, paused (deleting 0 1))
unfolding pdelete pdelete_loop unblock_all unblock_from find_queue find_from deref pointer load
    unblock change_found find ordonnance reap queue_out dispatch put_back add_process_list linked
    insert
paused_run = refl

stops : pdelete (pos 0) loaded ≡ none
unfolding pdelete pdelete_loop pdelete_end unblock_all unblock_from find_queue find_from deref
    pointer
stops = refl
