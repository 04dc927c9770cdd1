-- ===== src/Process/Switch.antt =====
-- `ordonnance`: it never stops on a failed assertion, which process it chooses, and where the
-- others go.
use mathlib.Core.Path.{fun_ext}
use advanced_operating_syste.Base.{
  ℕ, ◌+◌, ◌≤◌, ◌<◌, ◌≡◌, refl, sym, ap, subst, Bool, true, false, some, List, arith, ◌==◌,
  if◌then◌else◌, ◌∈◌,
}
use advanced_operating_syste.Queue.Insert.{insert}
use advanced_operating_syste.Queue.Order.{
  count-insert, has-insert, insert-has, Sorted, insert-Sorted,
}
use advanced_operating_syste.Process.State.{
  Kernel, ProcessState, chosen, activable, sleeping, blocked_on_sem, blocked_on_msg_send,
  blocked_on_msg_rcv, zombie, set_state, prio_of, state_of,
}
use advanced_operating_syste.Process.Schedule.{put_back}
use advanced_operating_syste.Process.Places.{
  listed, places, add_process_list-some, add_sleeping_list-some, add_to_kill_list-some,
}

-- The states in which the process that had the processor is put in no list.
abbrev pub is_dropped : ProcessState → Bool
is_dropped activable = true
is_dropped blocked_on_sem = true
is_dropped blocked_on_msg_send = true
is_dropped blocked_on_msg_rcv = true
is_dropped _ = false

-- The scheduler's invariant while `c` runs.
pub record IsValid (s : Kernel) (c : ℕ) : Type 0 where
  pub running : s.running ≡ some c
  pub once : (p : ℕ) → places s p ≤ 1
  pub sorted : Sorted (prio_of s) s.process_list
  pub alone : (p : ℕ) → 0 < listed s p → (state_of s p ≡ chosen) → ⊥

pub Sorted-ext : (f g : ℕ → ℕ) (xs : List ℕ) → ((q : ℕ) → g q ≡ f q) → Sorted f xs → Sorted g xs
Sorted-ext f g xs same s = subst (λ h. Sorted h xs) (fun_ext (λ q. sym (same q))) s

-- The state in which the scheduler leaves it.
abbrev pub left_state : ProcessState → ProcessState
left_state chosen = activable
left_state st = st

-- The list in which it then is, by the state that it had.
abbrev pub IsLeftIn : ProcessState → ℕ → Kernel → Type 0
IsLeftIn chosen c t = c ∈ t.process_list
IsLeftIn sleeping c t = c ∈ t.sleeping_list
IsLeftIn zombie c t = c ∈ t.to_kill_list
IsLeftIn _ c t = Unit {0}

-- The ready list when it is back: only one that was running comes in.
abbrev pub left_list : ProcessState → (ℕ → ℕ) → ℕ → List ℕ → List ℕ
left_list chosen prio c xs = insert prio c xs
left_list _ prio c xs = xs

-- What `put_back` does with the process `c` that had the processor.
pub record PutBack (s : Kernel) (c : ℕ) (t : Kernel) : Type 0 where
  pub same_prio : (q : ℕ) → prio_of t q ≡ prio_of s q
  pub same_pid : (q : ℕ) → (t.procs q).pid ≡ (s.procs q).pid
  pub others : (q : ℕ) → (q == c) ≡ false → t.procs q ≡ s.procs q
  pub left : t.procs c ≡ record (s.procs c) { state = left_state (state_of s c) }
  pub ready : t.process_list ≡ left_list (state_of s c) (prio_of s) c s.process_list
  pub left_in : IsLeftIn (state_of s c) c t
  pub kept_dead : (q : ℕ) → q ∈ s.to_kill_list → q ∈ t.to_kill_list
  pub same_pidmax : t.pidmax ≡ s.pidmax
  pub not_chosen : (state_of t c ≡ chosen) → ⊥
  pub count_in :
      (q : ℕ)
      → listed t q
        ≡ listed s q + (if q == c then (if is_dropped (state_of s c) then 0 else 1) else 0)
  pub sorted : Sorted (prio_of t) t.process_list

dropped-IsLeftIn : (st : ProcessState) (c : ℕ) (t : Kernel) → is_dropped st ≡ true → IsLeftIn st c t
dropped-IsLeftIn chosen c t e = cc
dropped-IsLeftIn activable c t e = tt
dropped-IsLeftIn sleeping c t e = cc
dropped-IsLeftIn blocked_on_sem c t e = tt
dropped-IsLeftIn blocked_on_msg_send c t e = tt
dropped-IsLeftIn blocked_on_msg_rcv c t e = tt
dropped-IsLeftIn zombie c t e = cc

dropped-left_list :
    (st : ProcessState) (prio : ℕ → ℕ) (c : ℕ) (xs : List ℕ)
    → is_dropped st ≡ true
    → xs ≡ left_list st prio c xs
dropped-left_list chosen prio c xs e = cc
dropped-left_list activable prio c xs e = refl
dropped-left_list sleeping prio c xs e = refl
dropped-left_list blocked_on_sem prio c xs e = refl
dropped-left_list blocked_on_msg_send prio c xs e = refl
dropped-left_list blocked_on_msg_rcv prio c xs e = refl
dropped-left_list zombie prio c xs e = refl

PutBack-dropped :
    (s : Kernel) (c : ℕ)
    → is_dropped (state_of s c) ≡ true
    → Sorted (prio_of s) s.process_list
    → PutBack s c s
PutBack-dropped s c out sorted = record {
  same_prio = λ q. refl;
  same_pid = λ q. refl;
  others = λ q ne. refl;
  left = ground arith;
  ready = dropped-left_list (state_of s c) (prio_of s) c s.process_list out;
  left_in = dropped-IsLeftIn (state_of s c) c s out;
  kept_dead = λ q i. i;
  same_pidmax = refl;
  not_chosen = λ e. ground arith;
  count_in = λ q. ground arith;
  sorted = sorted;
}

put_back_dropped : (s : Kernel) (c : ℕ) → is_dropped (state_of s c) ≡ true → put_back c s ≡ some s
unfolding put_back
put_back_dropped s c out = ground arith

module _ (s : Kernel) (c : ℕ) (free : listed s c ≡ 0)
    (sorted : Sorted (prio_of s) s.process_list) where
  abbrev pub PutsBack : Type 0
  PutsBack = (t : Kernel) × (put_back c s ≡ some t) × PutBack s c t

  put_back_chosen : state_of s c ≡ chosen → PutsBack
  unfolding put_back listed
  put_back_chosen e =
      let s' = set_state c activable s in
      let same : (q : ℕ) → prio_of s' q ≡ prio_of s q = λ q. ground arith in
      (
        record s' { process_list = insert (prio_of s') c s.process_list },
        rw (e, put_back) (add_process_list-some s' c free),
        record {
          same_prio = same;
          same_pid = λ q. ground arith;
          others = λ q ne. ground arith;
          left = ground arith;
          ready = rw e (ap (λ f. insert f c s.process_list) (fun_ext same));
          left_in = rw e (has-insert (prio_of s') c s.process_list);
          kept_dead = λ q i. i;
          same_pidmax = refl;
          not_chosen = λ h. ground arith;
          count_in = λ q. ground (arith, count-insert (prio_of s') c q s.process_list);
          sorted =
              insert-Sorted (prio_of s') c s.process_list
                (Sorted-ext (prio_of s) (prio_of s') s.process_list same sorted);
        },
      )

  put_back_sleeping : state_of s c ≡ sleeping → PutsBack
  unfolding put_back listed
  put_back_sleeping e = (
    record s { sleeping_list = insert (prio_of s) c s.sleeping_list },
    rw (e, put_back) (add_sleeping_list-some s c free),
    record {
      same_prio = λ q. refl;
      same_pid = λ q. refl;
      others = λ q ne. refl;
      left = ground arith;
      ready = rw e refl;
      left_in = rw e (has-insert (prio_of s) c s.sleeping_list);
      kept_dead = λ q i. i;
      same_pidmax = refl;
      not_chosen = λ h. ground arith;
      count_in = λ q. ground (arith, count-insert (prio_of s) c q s.sleeping_list);
      sorted = sorted;
    },
  )

  put_back_zombie : state_of s c ≡ zombie → PutsBack
  unfolding put_back listed
  put_back_zombie e = (
    record s { to_kill_list = insert (prio_of s) c s.to_kill_list },
    rw (e, put_back) (add_to_kill_list-some s c free),
    record {
      same_prio = λ q. refl;
      same_pid = λ q. refl;
      others = λ q ne. refl;
      left = ground arith;
      ready = rw e refl;
      left_in = rw e (has-insert (prio_of s) c s.to_kill_list);
      kept_dead = λ q i. insert-has (prio_of s) c q s.to_kill_list i;
      same_pidmax = refl;
      not_chosen = λ h. ground arith;
      count_in = λ q. ground (arith, count-insert (prio_of s) c q s.to_kill_list);
      sorted = sorted;
    },
  )

  pub put_back-PutBack : PutsBack
  put_back-PutBack = at (state_of s c) refl
    where
      dropped : is_dropped (state_of s c) ≡ true → PutsBack
      dropped out = (s, put_back_dropped s c out, PutBack-dropped s c out sorted)

      at : (st : ProcessState) → state_of s c ≡ st → PutsBack
      at chosen e = put_back_chosen e
      at sleeping e = put_back_sleeping e
      at zombie e = put_back_zombie e
      at _ e = dropped (ap is_dropped e)
