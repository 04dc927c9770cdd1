-- ===== src/Process/Relink.antt =====
-- `chprio`: how the lists change while it looks for a process and puts it in its new place.
use advanced_operating_syste.Base.{
  ℕ, ◌+◌, ◌≤◌, ◌<◌, ◌≡◌, refl, ◌∙◌, sym, ap, true, false, some, List, [], ◌∷◌, inl, inr, arith,
  ◌==◌, if◌then◌else◌, Bool-cases, ◌∈◌, ==_iff, All,
}
use advanced_operating_syste.Queue.Insert.{insert}
use advanced_operating_syste.Queue.Order.{
  count, count-insert, Sorted, insert-Sorted, Sorted-members, All-others,
}
use advanced_operating_syste.Process.State.{
  Kernel, chosen, activable, linked, prio_of, state_of, update, remove, queue_del,
}
use advanced_operating_syste.Process.Others.{replace}
use advanced_operating_syste.Process.Places.{
  runs, listed, places, count_of_has, remove_absent, count-remove, remove-insert,
  add_process_list-some,
}
use advanced_operating_syste.Process.Switch.{IsValid}

has_counted : (p : ℕ) (xs : List ℕ) → 0 < count p xs → p ∈ xs
unfolding count
has_counted p [] h = absurd (omega arith)
has_counted p (x ∷ xs) h = ground (arith, has_counted p xs)

All-remove {ℓ} : (P : ℕ → Type ℓ) (p : ℕ) (xs : List ℕ) → All P xs → All P (remove p xs)
unfolding remove
All-remove P p [] all = tt
All-remove P p (x ∷ xs) all = elim (Bool-cases (p == x)) [
  | inl e ↦ rw e all.1
  | inr e ↦ rw e (all.0, All-remove P p xs all.1)
]

remove-Sorted : (prio : ℕ → ℕ) (p : ℕ) (xs : List ℕ) → Sorted prio xs → Sorted prio (remove p xs)
unfolding remove
remove-Sorted prio p [] s = tt
remove-Sorted prio p (x ∷ xs) s = elim (Bool-cases (p == x)) [
  | inl e ↦ rw e s.1
  | inr e ↦ rw e (All-remove (λ y. prio x ≤ prio y) p xs s.0, remove-Sorted prio p xs s.1)
]

-- `queue_del` on a process that is in the ready list, and in no other.
module _ (t : Kernel) (p : ℕ) (i : p ∈ t.process_list) (once : listed t p ≤ 1) where
  elsewhere : (count p t.sleeping_list ≡ 0) × (count p t.to_kill_list ≡ 0)
  unfolding listed
  elsewhere = (
    omega (arith, once, count_of_has p t.process_list i),
    omega (arith, once, count_of_has p t.process_list i),
  )

  linked_ready : linked t p ≡ true
  unfolding linked
  linked_ready = ground (arith, i)

  queue_del-ready : queue_del p t ≡ some (record t { process_list = remove p t.process_list })
  unfolding queue_del
  queue_del-ready =
      rw
        (
          linked_ready,
          remove_absent p t.sleeping_list elsewhere.0,
          remove_absent p t.to_kill_list elsewhere.1,
        )
        refl

module _ (s : Kernel) (c : ℕ) (v : IsValid s c) where
  -- The running process is in no list, and is linked for the time of the search.
  pub unlisted : listed s c ≡ 0
  unfolding places runs
  unlisted = ground (arith, v.once c, ap (λ o. runs o c) v.running)

  abbrev pub searched : Kernel
  searched = record s { process_list = insert (prio_of s) c s.process_list }

  listed-searched : (q : ℕ) → listed searched q ≡ listed s q + (if q == c then 1 else 0)
  unfolding listed
  listed-searched q = omega (arith, count-insert (prio_of s) c q s.process_list)

  once-searched : (q : ℕ) → listed searched q ≤ 1
  unfolding places runs
  once-searched q = ground (arith, listed-searched q, v.once q, ap (λ o. runs o q) v.running)

  pub caller_found : c ∈ searched.process_list
  unfolding listed
  caller_found =
      has_counted c searched.process_list
        (ground (arith, count-insert (prio_of s) c c s.process_list))

  -- The caller is taken out where it was put in.
  pub unlink-searched : queue_del c searched ≡ some s
  unfolding listed
  unlink-searched =
      queue_del-ready searched c caller_found (once-searched c)
      ∙ ap (λ l. some (record s { process_list = l }))
          (remove-insert (prio_of s) c s.process_list (omega (arith, unlisted)))

  module _ (p new : ℕ) (i : p ∈ searched.process_list) where
    -- The process found has its new priority, and is still where it was.
    abbrev pub given : Kernel
    given = record searched { procs = update s.procs p (record (s.procs p) { prio = new }) }

    abbrev without : Kernel
    without = record given { process_list = remove p given.process_list }

    abbrev pub replaced : Kernel
    replaced = record without { process_list = insert (prio_of without) p without.process_list }

    abbrev pub moved : Kernel
    moved = record replaced { process_list = remove c replaced.process_list }

    listed-without : (q : ℕ) → listed without q + (if q == p then 1 else 0) ≡ listed searched q
    unfolding listed
    listed-without q = omega (arith, count-remove q p searched.process_list i)

    listed-replaced : (q : ℕ) → listed replaced q ≡ listed searched q
    unfolding listed
    listed-replaced q =
        omega (arith, listed-without q, count-insert (prio_of without) p q without.process_list)

    free : listed without p ≡ 0
    free = ground (arith, listed-without p, once-searched p)

    caller_linked : c ∈ replaced.process_list
    unfolding listed
    caller_linked =
        has_counted c replaced.process_list
          (ground (arith, listed-replaced c, listed-searched c, unlisted))

    pub listed-moved : (q : ℕ) → listed moved q ≡ listed s q
    unfolding listed
    listed-moved q = omega (
      arith,
      listed-replaced q,
      listed-searched q,
      count-remove q c replaced.process_list caller_linked,
    )

    prio_others : (q : ℕ) → (q == p) ≡ false → prio_of given q ≡ prio_of s q
    prio_others q other = ground arith

    Sorted-moved : Sorted (prio_of moved) moved.process_list
    unfolding listed
    Sorted-moved = remove-Sorted (prio_of given) c replaced.process_list (
        insert-Sorted (prio_of given) p without.process_list (
          Sorted-members (prio_of s) (prio_of given) without.process_list
            (All-others (λ q. prio_of given q ≡ prio_of s q) p without.process_list prio_others
              (omega (arith, free)))
            (remove-Sorted (prio_of s) p searched.process_list
              (insert-Sorted (prio_of s) c s.process_list v.sorted))))

    pub same_state : (q : ℕ) → state_of given q ≡ state_of s q
    same_state q = ground arith

    pub moved-IsValid : IsValid moved c
    unfolding places
    moved-IsValid = record {
      running = v.running;
      once = λ q. omega (arith, listed-moved q, v.once q);
      sorted = Sorted-moved;
      alone = λ q h e. v.alone q (omega (arith, h, listed-moved q)) (sym (same_state q) ∙ e);
    }

    pub replace-activable : state_of s p ≡ activable → replace p given ≡ some replaced
    unfolding replace listed
    replace-activable e =
        rw
          (
            same_state p ∙ e,
            replace,
            queue_del-ready given p i (once-searched p),
            add_process_list-some without p free,
          )
          refl

    pub unlink-replaced : queue_del c replaced ≡ some moved
    unlink-replaced =
        queue_del-ready replaced c caller_linked (omega (arith, listed-replaced c, once-searched c))

    -- The caller itself is found: nothing is moved, and the list is as before the search.
    abbrev pub own : Kernel
    own = record s { procs = update s.procs p (record (s.procs p) { prio = new }) }

    pub own_caller : state_of s p ≡ chosen → (p == c) ≡ true
    unfolding listed
    own_caller e = elim (Bool-cases (p == c)) [
      | inl same ↦ same
      | inr other ↦
          let member = count_of_has p searched.process_list i in
          absurd (v.alone p (ground (arith, member, count-insert (prio_of s) c p s.process_list)) e)
    ]

    pub replace-chosen : state_of s p ≡ chosen → replace p given ≡ some given
    unfolding replace
    replace-chosen e = rw (same_state p ∙ e, replace) refl

    pub unlink-given : queue_del c given ≡ some own
    unfolding listed
    unlink-given =
        queue_del-ready given c caller_found (once-searched c)
        ∙ ap (λ l. some (record given { process_list = l }))
            (remove-insert (prio_of s) c s.process_list (omega (arith, unlisted)))

    pub own-IsValid : (p == c) ≡ true → IsValid own c
    unfolding places listed
    own-IsValid same = record {
      running = v.running;
      once = λ q. v.once q;
      sorted =
          Sorted-members (prio_of s) (prio_of own) s.process_list
            (All-others (λ q. prio_of own q ≡ prio_of s q) p s.process_list prio_others
              (ground (arith, unlisted, ap (λ q. count q s.process_list) ((==_iff p c).0 same))))
            v.sorted;
      alone = λ q h e. v.alone q h (sym (same_state q) ∙ e);
    }
