-- ===== src/Process/Choice.antt =====
-- `ordonnance` as a whole: it never stops on a failed assertion, whom it chooses, and where the
-- others go.
use advanced_operating_syste.Base.{
  ℕ, suc, ◌+◌, ◌<◌, ◌≡◌, refl, ◌∙◌, sym, ap, subst, true, Option, some, List, [], ◌∷◌, ◌++◌, inl,
  inr, arith, ◌==◌, ==_iff, if◌then◌else◌, ◌>>=◌, last_or, front, front-append-last, All, length,
  Bool-cases,
}
use mathlib.Core.Path.{fun_ext}
use mathlib.Core.List.{append_assoc}
use advanced_operating_syste.Process.State.{
  Kernel, Process, ProcessState, chosen, activable, sleeping, blocked_on_sem, blocked_on_msg_send,
  blocked_on_msg_rcv, zombie, prio_of, state_of, is_zombie,
}
use advanced_operating_syste.Process.Schedule.{dispatch, ordonnance}
use advanced_operating_syste.Process.Places.{runs, listed, places, listed-le-places}
use advanced_operating_syste.Process.Reap.{Reaped, reap-Reaped}
use advanced_operating_syste.Process.Switch.{
  is_dropped, left_state, left_list, IsLeftIn, IsValid, PutBack, put_back-PutBack,
}
use advanced_operating_syste.Process.Outcome.{Switches, Outcome, stays, switches}
use advanced_operating_syste.Process.Taken.{
  dispatch_stays, dispatch_switches, Stays-nil, IsValid-nil, top, top_alive, top_highest,
  top_listed, before, listed-before, top_other, c_other, free, proc-before, prio-before, pid-before,
  state-before, Sorted-before,
}

-- The lists are what counts, not who runs.
IsLeftIn-running :
    (st : ProcessState) (c : ℕ) (u : Kernel) (r : Option ℕ)
    → IsLeftIn st c u
    → IsLeftIn st c (record u { running = r })
IsLeftIn-running chosen c u r h = h
IsLeftIn-running activable c u r h = h
IsLeftIn-running sleeping c u r h = h
IsLeftIn-running blocked_on_sem c u r h = h
IsLeftIn-running blocked_on_msg_send c u r h = h
IsLeftIn-running blocked_on_msg_rcv c u r h = h
IsLeftIn-running zombie c u r h = h

module _ (s : Kernel) (c : ℕ) (v : IsValid s c) (t : Kernel) (r : Reaped s t) where
  module _ (x : ℕ) (xs : List ℕ) (e : t.process_list ≡ x ∷ xs) where
    module _ (u : Kernel) (pb : PutBack (before s c v t r x xs e) c u) where
      abbrev after : Kernel
      after = record u { running = some (top s c v t r x xs e) }

      after-kept :
          (p : ℕ)
          → places after p + (if p == c then (if is_dropped (state_of s c) then 1 else 0) else 0)
            ≡ places s p
      unfolding places listed runs
      after-kept p =
          let start = ap (λ o. runs o p) v.running in
          ground (
            arith,
            pb.count_in p,
            listed-before s c v t r x xs e p,
            state-before s c v t r x xs e c,
            (top_other s c v t r x xs e),
            start,
          )

      IsLeftIn-after : IsLeftIn (state_of s c) c u → IsLeftIn (state_of s c) c after
      IsLeftIn-after = IsLeftIn-running (state_of s c) c u (some (top s c v t r x xs e))

      -- The ready list, by what stands before the one chosen.
      order-cons :
          (ys dead : List ℕ) × (s.process_list ≡ ys ++ (top s c v t r x xs e) ∷ dead)
          × All (λ p. is_zombie (state_of s p) ≡ true) dead
          × (after.process_list ≡ left_list (state_of s c) (prio_of s) c ys)
      order-cons =
          let (dead, split, all) = r.dropped in
          (
            front (x ∷ xs),
            dead,
            split
                ∙ ap (λ ys. ys ++ dead) (e ∙ sym (front-append-last x xs))
                ∙ append_assoc (front (x ∷ xs)) ((top s c v t r x xs e) ∷ []) dead,
            all,
            pb.ready
                ∙ ap (λ st. left_list st (prio_of (before s c v t r x xs e)) c (front (x ∷ xs)))
                    (ap (λ p. p.state) (proc-before s c v t r x xs e c (c_other s c v t r x xs e)))
                ∙ ap (λ f. left_list (state_of s c) f c (front (x ∷ xs)))
                    (fun_ext (prio-before s c v t r x xs e)),
          )

      Switches-cons : Switches s c (top s c v t r x xs e) after
      Switches-cons = record {
        taken = refl;
        became =
            ap (λ p. p.state) (pb.others (top s c v t r x xs e) (top_other s c v t r x xs e))
            ∙ ground arith;
        chosen_from =
            pb.others (top s c v t r x xs e) (top_other s c v t r x xs e)
            ∙ ground (arith, ap (λ f. f (top s c v t r x xs e)) r.same_procs);
        left =
            pb.left
            ∙ ap {A = Process} (λ p. record p { state = left_state p.state })
                (proc-before s c v t r x xs e c (c_other s c v t r x xs e));
        left_in = IsLeftIn-after (
            subst (λ st. IsLeftIn st c u)
              (ap (λ p. p.state) (proc-before s c v t r x xs e c (c_other s c v t r x xs e)))
              pb.left_in);
        others = λ p nc nt. pb.others p nc ∙ proc-before s c v t r x xs e p nt;
        kept_dead = λ p i. pb.kept_dead p (r.kept_dead p i);
        same_pidmax = pb.same_pidmax ∙ r.same_pidmax;
        ready = top_listed s c v t r x xs e;
        order = order-cons;
        alive = top_alive s c v t r x xs e;
        highest = top_highest s c v t r x xs e;
        same_prio = λ p. pb.same_prio p ∙ prio-before s c v t r x xs e p;
        same_pid = λ p. pb.same_pid p ∙ pid-before s c v t r x xs e p;
        kept = after-kept;
      }

      alone-after : (p : ℕ) → 0 < listed after p → (state_of after p ≡ chosen) → ⊥
      unfolding listed places
      alone-after p h k = elim (Bool-cases (p == c)) [
        | inl same ↦ pb.not_chosen (subst (λ q. state_of u q ≡ chosen) ((==_iff p c).0 same) k)
        | inr other ↦ elim (Bool-cases (p == (top s c v t r x xs e))) [
          | inl same ↦ ground (arith, pb.count_in p, listed-before s c v t r x xs e p, v.once p)
          | inr other' ↦
              v.alone p (ground (arith, pb.count_in p, listed-before s c v t r x xs e p)) (
                sym (state-before s c v t r x xs e p other')
                ∙ sym (ap (λ q. q.state) (pb.others p other))
                ∙ k)
        ]
      ]

      IsValid-cons : IsValid after (top s c v t r x xs e)
      IsValid-cons = record {
        running = refl;
        once = λ p. omega (arith, after-kept p, v.once p);
        sorted = pb.sorted;
        alone = alone-after;
      }

  dispatch-Outcome : (ys : List ℕ) → t.process_list ≡ ys → Outcome s c (dispatch t)
  dispatch-Outcome [] e =
      subst (Outcome s c) (sym (dispatch_stays t e))
        (stays (Stays-nil s c v t r e) (IsValid-nil s c v t r e))
  dispatch-Outcome (x ∷ xs) e =
      let (u, back, pb) =
        put_back-PutBack (before s c v t r x xs e) c (free s c v t r x xs e)
          (Sorted-before s c v t r x xs e) in
      let run = dispatch_switches c x xs t u e (r.same_running ∙ v.running) back in
      subst (Outcome s c) (sym run)
        (switches (last_or x xs) (Switches-cons x xs e u pb) (IsValid-cons x xs e u pb))

-- In a valid state the scheduler ends, fails no assertion, keeps the state valid, and either leaves
-- the processor to the running process, when every ready process has terminated, or gives it to one
-- of the highest priority among those that have not. The ready list is then what stood before that
-- process, with the one that ran put in by its priority, if it goes on.
pub ordonnance-Outcome : (s : Kernel) (c : ℕ) → IsValid s c → Outcome s c (ordonnance s)
unfolding ordonnance
ordonnance-Outcome s c v =
    let (t, run, r) =
      reap-Reaped (suc (length s.process_list)) s (omega arith)
        (λ p. omega (arith, listed-le-places s p, v.once p)) in
    subst (λ o. Outcome s c (o >>= dispatch)) (sym run)
      (dispatch-Outcome s c v t r t.process_list refl)
