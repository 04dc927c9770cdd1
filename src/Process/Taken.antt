-- ===== src/Process/Taken.antt =====
-- `ordonnance` after its loop: the process that is taken out, and the kernel without it.
use advanced_operating_syste.Base.{
  ℕ, ◌+◌, ◌≤◌, ◌<◌, ◌≡◌, refl, ◌∙◌, sym, ap, subst, true, false, some, List, [], ◌∷◌, ◌++◌, inl,
  inr, arith, ◌==◌, if◌then◌else◌, ◌>>=◌, last_or, front, All-mem, Bool-cases, has, ◌∈◌, has-append,
}
use advanced_operating_syste.Queue.Segs.{last-mem}
use advanced_operating_syste.Queue.Order.{
  count, count-front, Sorted, front-Sorted, last-highest, Sorted-prefix,
}
use advanced_operating_syste.Process.State.{Kernel, chosen, set_state, prio_of, state_of, is_zombie}
use advanced_operating_syste.Process.Schedule.{put_back, dispatch}
use advanced_operating_syste.Process.Places.{runs, listed, places}
use advanced_operating_syste.Process.Reap.{TopIsAlive, Reaped, queue_out-nil, queue_out-cons}
use advanced_operating_syste.Process.Switch.{IsValid, Sorted-ext}
use advanced_operating_syste.Process.Outcome.{Stays}

pub dispatch_stays : (t : Kernel) → t.process_list ≡ [] → dispatch t ≡ some (t, false)
unfolding dispatch
dispatch_stays t e = rw (queue_out-nil t e, dispatch) refl

abbrev pub taken_out : Kernel → ℕ → List ℕ → Kernel
taken_out t x xs = set_state (last_or x xs) chosen (record t { process_list = front (x ∷ xs) })

module _ (c x : ℕ) (xs : List ℕ) (t u : Kernel) (e : t.process_list ≡ x ∷ xs) where
  pub dispatch_switches :
      t.running ≡ some c
      → put_back c (taken_out t x xs) ≡ some u
      → dispatch t ≡ some (record u { running = some (last_or x xs) }, true)
  unfolding dispatch
  dispatch_switches f back =
      rw (queue_out-cons t x xs e, dispatch)
        (ap
            (λ o. o >>= λ c. put_back c (taken_out t x xs) >>= λ u.
              some (record u { running = some (last_or x xs) }, true))
            f
          ∙ rw back refl)

module _ (s : Kernel) (c : ℕ) (v : IsValid s c) (t : Kernel) (r : Reaped s t) where
  pub not_listed : listed s c ≡ 0
  unfolding places runs
  not_listed = ground (arith, v.once c, ap (λ o. runs o c) v.running)

  pub same_places : (p : ℕ) → places t p ≡ places s p
  unfolding places
  same_places p = omega (arith, r.same_places p, ap (λ o. runs o p) r.same_running)

  pub same_state : (p : ℕ) → state_of t p ≡ state_of s p
  same_state p = ap (λ f. (f p).state) r.same_procs

  pub same_prio : (p : ℕ) → prio_of t p ≡ prio_of s p
  same_prio p = ap (λ f. (f p).prio) r.same_procs

  pub Stays-nil : t.process_list ≡ [] → Stays s t
  Stays-nil e =
      let (dead, split, all) = r.dropped in
      record {
        same_running = r.same_running;
        same_procs = r.same_procs;
        all_dead = rw (split, e) all;
        emptied = e;
        same_places = same_places;
        kept_dead = r.kept_dead;
        same_pidmax = r.same_pidmax;
      }

  pub alone_after : (p : ℕ) → 0 < listed t p → (state_of t p ≡ chosen) → ⊥
  alone_after p h e = v.alone p (omega (arith, r.same_places p)) (sym (same_state p) ∙ e)

  pub IsValid-nil : t.process_list ≡ [] → IsValid t c
  IsValid-nil e = record {
    running = r.same_running ∙ v.running;
    once = λ p. omega (arith, same_places p, v.once p);
    sorted = rw e tt;
    alone = alone_after;
  }

  module _ (x : ℕ) (xs : List ℕ) (e : t.process_list ≡ x ∷ xs) where
    abbrev pub top : ℕ
    top = last_or x xs

    pub top_alive : is_zombie (state_of s top) ≡ false
    top_alive = ap is_zombie (sym (same_state top)) ∙ subst (TopIsAlive t.procs) e r.alive

    pub Sorted-left : Sorted (prio_of s) (x ∷ xs)
    Sorted-left =
        let (dead, split, all) = r.dropped in
        Sorted-prefix (prio_of s) (x ∷ xs) dead
          (subst (Sorted (prio_of s)) (split ∙ ap (λ ys. ys ++ dead) e) v.sorted)

    -- A process that was listed and has not terminated is still listed after the loop.
    pub still_listed :
        (p : ℕ) → p ∈ s.process_list → is_zombie (state_of s p) ≡ false → p ∈ (x ∷ xs)
    still_listed p i alive = elim (Bool-cases (has p (x ∷ xs))) [
      | inl j ↦ j
      | inr j ↦
          let (dead, split, all) = r.dropped in
          let both = ap (has p) (split ∙ ap (λ ys. ys ++ dead) e) ∙ has-append p (x ∷ xs) dead in
          let gone : p ∈ dead = ground (arith, both) in
          cc (All-mem (λ q. is_zombie (state_of s q) ≡ true) p dead all gone)
    ]

    pub top_highest :
        (p : ℕ)
        → p ∈ s.process_list
        → is_zombie (state_of s p) ≡ false
        → prio_of s p ≤ prio_of s top
    top_highest p i alive =
        All-mem (λ q. prio_of s q ≤ prio_of s top) p (x ∷ xs)
          (last-highest (prio_of s) x xs Sorted-left) (still_listed p i alive)

    pub top_listed : top ∈ s.process_list
    top_listed =
        let (dead, split, all) = r.dropped in
        ground (
          arith,
          ap (has top) (split ∙ ap (λ ys. ys ++ dead) e),
          has-append top (x ∷ xs) dead,
          last-mem x xs,
        )

    abbrev pub before : Kernel
    before = taken_out t x xs

    pub listed-before : (p : ℕ) → (if p == top then 1 else 0) + listed before p ≡ listed s p
    unfolding listed
    listed-before p = omega (arith, r.same_places p, count-front p x xs, ap (count p) e)

    pub top_other : (top == c) ≡ false
    top_other = ground (arith, listed-before c, not_listed)

    pub c_other : (c == top) ≡ false
    c_other = ground (arith, listed-before c, not_listed)

    pub free : listed before c ≡ 0
    free = omega (arith, listed-before c, not_listed)

    pub proc-before : (p : ℕ) → (p == top) ≡ false → before.procs p ≡ s.procs p
    proc-before p ne = ground (arith, ap (λ f. f p) r.same_procs)

    pub prio-before : (p : ℕ) → prio_of before p ≡ prio_of s p
    prio-before p = ground (arith, same_prio p)

    pub pid-before : (p : ℕ) → (before.procs p).pid ≡ (s.procs p).pid
    pid-before p = ground (arith, ap (λ f. (f p).pid) r.same_procs)

    pub state-before : (p : ℕ) → (p == top) ≡ false → state_of before p ≡ state_of s p
    state-before p ne = ground (arith, same_state p)

    pub Sorted-before : Sorted (prio_of before) before.process_list
    Sorted-before =
        Sorted-ext (prio_of s) (prio_of before) (front (x ∷ xs)) prio-before
          (front-Sorted (prio_of s) x xs Sorted-left)
