-- ===== src/Sem/Reach.antt =====
-- What holds of the semaphores after any history of calls.
use advanced_operating_syste.Base.{ℕ, ◌≡◌, Option, some}
use advanced_operating_syste.Base.Int.{ℤ}
use advanced_operating_syste.Process.State.{Kernel}
use advanced_operating_syste.Process.Calls.{Reply}
use advanced_operating_syste.Sem.State.{System}
use advanced_operating_syste.Sem.Calls.{screate, sdelete, signal, signaln, sreset, try_wait, wait}
use advanced_operating_syste.Sem.Free.{
  IsShort, AllFree, sdelete-AllFree, signal-AllFree, signaln-AllFree, sreset-AllFree,
  try_wait-AllFree, wait-AllFree, screate-AllFree,
}

pub data Call : Type 0 where
  screates : ℤ → Option ℕ → Call
  sdeletes signals try_waits : ℤ → Call
  signalns sresets : ℤ → ℤ → Call
  waits : ℤ → Option ℕ → Call

-- The counts that a call is given are values of `short`.
abbrev pub IsTyped : Call → Type 0
IsTyped (screates count _) = IsShort count
IsTyped (signalns _ count) = IsShort count
IsTyped (sresets _ count) = IsShort count
IsTyped _ = Unit {0}

unfoldable pub perform : Call → System → Option (System × Reply)
perform (screates count memory) s = screate count memory s
perform (sdeletes sem) s = sdelete sem s
perform (signals sem) s = signal sem s
perform (try_waits sem) s = try_wait sem s
perform (signalns sem count) s = signaln sem count s
perform (sresets sem count) s = sreset sem count s
perform (waits sem memory) s = wait sem memory s

-- The histories: calls, and between them anything that happens to the processes.
pub data Reach (s : System) : System → Type 0 where
  here : Reach s s
  next :
      {t u : System} {r : Reply} (c : Call)
      → Reach s t
      → IsTyped c
      → perform c t ≡ some (u, r)
      → Reach s u
  meanwhile : {t : System} (k : Kernel) → Reach s t → Reach s (record t { kernel = k })

-- Every call keeps the counters in range and records no waiting process.
perform-AllFree :
    (c : Call) (s t : System) (r : Reply)
    → AllFree s
    → IsTyped c
    → perform c s ≡ some (t, r)
    → AllFree t
unfolding perform
perform-AllFree (screates count memory) s t r h w e = screate-AllFree s t r count memory h w e
perform-AllFree (sdeletes sem) s t r h w e = sdelete-AllFree s t r sem h e
perform-AllFree (signals sem) s t r h w e = signal-AllFree s t r sem h e
perform-AllFree (try_waits sem) s t r h w e = try_wait-AllFree s t r sem h e
perform-AllFree (signalns sem count) s t r h w e = signaln-AllFree s t r sem h count e
perform-AllFree (sresets sem count) s t r h w e = sreset-AllFree s t r sem h count w e
perform-AllFree (waits sem memory) s t r h w e = wait-AllFree s t r sem h memory e

-- If every counter is in the range of its type and no semaphore has a waiting process in its list,
-- as when there are none, then both are so after any history of calls with counts that are values
-- of `short`, whatever else happens to the processes: no call ever records a process that waits.
pub Reach-AllFree : {s t : System} → AllFree s → Reach s t → AllFree t
Reach-AllFree h here = h
Reach-AllFree h (next {t} {u} {r} c reach w e) = perform-AllFree c t u r (Reach-AllFree h reach) w e
Reach-AllFree h (meanwhile k reach) = Reach-AllFree h reach
