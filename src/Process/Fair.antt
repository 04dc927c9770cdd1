-- ===== src/Process/Fair.antt =====
-- What one run of the scheduler does among ready processes of one priority.
use advanced_operating_syste.Base.{
  ℕ, ◌+◌, ◌<◌, ◌≡◌, refl, ◌∙◌, sym, ap, subst, Bool, true, false, Option, some, List, [], ◌∷◌, ◌++◌,
  arith, ◌==◌, last_or, front, All, All-map, All-mem, All-prefix, has, ◌∈◌, has-append,
}
use mathlib.Core.List.{append_assoc}
use advanced_operating_syste.Queue.Segs.{last-mem}
use advanced_operating_syste.Queue.Insert.{insert}
use advanced_operating_syste.Queue.Order.{count}
use advanced_operating_syste.Process.State.{Kernel, chosen, activable, prio_of, state_of, is_zombie}
use advanced_operating_syste.Process.Schedule.{ordonnance}
use advanced_operating_syste.Process.Places.{runs, listed, places, count_of_has}
use advanced_operating_syste.Process.Switch.{IsValid, left_state, left_list}
use advanced_operating_syste.Process.Outcome.{Outcome, stays, switches, Switches}
use advanced_operating_syste.Process.Choice.{ordonnance-Outcome}

last_or-append : (d a : ℕ) (xs ys : List ℕ) → last_or d (xs ++ a ∷ ys) ≡ last_or a ys
last_or-append d a [] ys = refl
last_or-append d a (x ∷ xs) ys = last_or-append x a xs ys

front-append : (a : ℕ) (xs : List ℕ) → front (xs ++ a ∷ []) ≡ xs
front-append a [] = refl
front-append a (x ∷ []) = refl
front-append a (x ∷ y ∷ ys) = ap (λ zs. x ∷ zs) (front-append a (y ∷ ys))

count-append : (a : ℕ) (xs ys : List ℕ) → count a (xs ++ ys) ≡ count a xs + count a ys
unfolding count
count-append a [] ys = omega arith
count-append a (x ∷ xs) ys = omega (arith, count-append a xs ys)

All-of {ℓ} : (P : ℕ → Type ℓ) (xs : List ℕ) → ((q : ℕ) → q ∈ xs → P q) → All P xs
All-of P [] h = tt
All-of P (x ∷ xs) h = (h x (ground arith), All-of P xs (λ q i. h q (ground arith)))

-- Behind the last process that has not terminated there is nobody.
split_last :
    (dead_of : ℕ → Bool) (xs before dead : List ℕ) (z w : ℕ)
    → before ++ w ∷ [] ≡ xs ++ z ∷ dead
    → All (λ p. dead_of p ≡ true) dead
    → dead_of w ≡ false
    → (xs ≡ before) × (z ≡ w)
split_last dead_of xs before [] z w e all alive =
    let last : z ≡ w =
      sym (last_or-append 0 z xs []) ∙ sym (ap (last_or 0) e) ∙ last_or-append 0 w before [] in
    (sym (front-append z xs) ∙ sym (ap front e) ∙ front-append w before, last)
split_last dead_of xs before (d ∷ ds) z w e all alive =
    let last : w ≡ last_or d ds =
      sym (last_or-append 0 w before []) ∙ ap (last_or 0) e ∙ last_or-append 0 z xs (d ∷ ds) in
    let dead = All-mem (λ p. dead_of p ≡ true) (last_or d ds) (d ∷ ds) all (last-mem d ds) in
    absurd (ground (arith, ap dead_of last, dead, alive))

-- A process comes in behind those of lower priority, and before those of its own.
insert-level :
    (prio : ℕ → ℕ) (c : ℕ) (low ys : List ℕ)
    → All (λ q. prio q < prio c) low
    → All (λ q. prio q ≡ prio c) ys
    → insert prio c (low ++ ys) ≡ low ++ c ∷ ys
unfolding insert
insert-level prio c [] [] below same = refl
insert-level prio c [] (y ∷ ys) below same = ground (arith, same.0)
insert-level prio c (l ∷ low) ys below same =
    ground (arith, below.0, insert-level prio c low ys below.1 same)

-- `c` runs with a priority, `xs` are the ready processes of the same one, in the order in which
-- they came, the last being the first to go, and `low` are the other ready ones, of lower priority.
pub record InTurn (s : Kernel) (c prio : ℕ) (low xs : List ℕ) : Type 0 where
  pub valid : IsValid s c
  pub running : state_of s c ≡ chosen
  pub level : prio_of s c ≡ prio
  pub list : s.process_list ≡ low ++ xs
  pub equals : All (λ q. (prio_of s q ≡ prio) × (state_of s q ≡ activable)) xs
  pub below : All (λ q. prio_of s q < prio) low

module _ (s : Kernel) (c w prio : ℕ) (low ys : List ℕ)
    (t : InTurn s c prio low (ys ++ w ∷ [])) where
  whole : s.process_list ≡ (low ++ ys) ++ w ∷ []
  whole = t.list ∙ sym (append_assoc low ys (w ∷ []))

  last_equal : (prio_of s w ≡ prio) × (state_of s w ≡ activable)
  last_equal =
      All-mem (λ q. (prio_of s q ≡ prio) × (state_of s q ≡ activable)) w (ys ++ w ∷ []) t.equals
        (ground (arith, has-append w ys (w ∷ [])))

  listed_there : (q : ℕ) → q ∈ ys → q ∈ s.process_list
  listed_there q i =
      ground (arith, ap (has q) whole, has-append q (low ++ ys) (w ∷ []), has-append q low ys)

  not_caller : (q : ℕ) → q ∈ ys → (q == c) ≡ false
  unfolding places listed runs
  not_caller q i = ground (
    arith,
    t.valid.once q,
    count_of_has q s.process_list (listed_there q i),
    ap (λ o. runs o q) t.valid.running,
  )

  not_last : (q : ℕ) → q ∈ ys → (q == w) ≡ false
  unfolding places listed count
  not_last q i = ground (
    arith,
    t.valid.once q,
    ap (count q) whole,
    count-append q (low ++ ys) (w ∷ []),
    count-append q low ys,
    count_of_has q ys i,
  )

  -- The scheduler has given the processor to `w`.
  switched : (u : Kernel) → Switches s c w u → IsValid u w → InTurn u w prio low (c ∷ ys)
  switched u g v = record {
    valid = v;
    running = g.became;
    level = g.same_prio w ∙ last_equal.0;
    list = listed_now;
    equals = (
      (g.same_prio c ∙ t.level, ap (λ p. p.state) g.left ∙ ap left_state t.running),
      All-of (λ q. (prio_of u q ≡ prio) × (state_of u q ≡ activable)) ys others,
    );
    below = All-map _ _ low (λ q h. subst (λ n. n < prio) (sym (g.same_prio q)) h) t.below;
  }
    where
      others : (q : ℕ) → q ∈ ys → (prio_of u q ≡ prio) × (state_of u q ≡ activable)
      others q i =
          let (level, ready) =
            All-mem (λ q. (prio_of s q ≡ prio) × (state_of s q ≡ activable)) q (ys ++ w ∷ [])
              t.equals (ground (arith, has-append q ys (w ∷ []))) in
          (
            g.same_prio q ∙ level,
            ap (λ p. p.state) (g.others q (not_caller q i) (not_last q i)) ∙ ready,
          )

      listed_now : u.process_list ≡ low ++ c ∷ ys
      listed_now =
          let (xs, dead, split, all, now) = g.order in
          let (before, _) =
            split_last (λ q. is_zombie (state_of s q)) xs (low ++ ys) dead w w (sym whole ∙ split)
              all (ap is_zombie last_equal.1) in
          now
          ∙ ap (λ st. left_list st (prio_of s) c xs) t.running
          ∙ ap (insert (prio_of s) c) before
          ∙ insert-level (prio_of s) c low ys
              (subst (λ n. All (λ q. prio_of s q < n) low) (sym t.level) t.below)
              (All-map _ _ ys (λ q h. h.0 ∙ sym t.level)
                (All-prefix (λ q. (prio_of s q ≡ prio) × (state_of s q ≡ activable)) ys (w ∷ [])
                  t.equals))

  tick-outcome :
      {o : Option (Kernel × Bool)}
      → Outcome s c o
      → (u : Kernel) × (o ≡ some (u, true)) × InTurn u w prio low (c ∷ ys)
  tick-outcome (stays {u} g v) =
      let all = g.all_dead in
      let here : w ∈ s.process_list =
        ground (arith, ap (has w) whole, has-append w (low ++ ys) (w ∷ [])) in
      let dead = All-mem (λ q. is_zombie (state_of s q) ≡ true) w s.process_list all here in
      absurd (ground (arith, dead, ap is_zombie last_equal.1))
  tick-outcome (switches {u} z g v) =
      let (xs, dead, split, all, now) = g.order in
      let (_, same) =
        split_last (λ q. is_zombie (state_of s q)) xs (low ++ ys) dead z w (sym whole ∙ split) all
          (ap is_zombie last_equal.1) in
      (u, refl, switched u (subst (λ x. Switches s c x u) same g) (subst (IsValid u) same v))

  -- At a clock interrupt the last of the list takes the processor, and the one that had it comes in
  -- as the first.
  pub tick_turn : (u : Kernel) × (ordonnance s ≡ some (u, true)) × InTurn u w prio low (c ∷ ys)
  tick_turn = tick-outcome (ordonnance-Outcome s c t.valid)
