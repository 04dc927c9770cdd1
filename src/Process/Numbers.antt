-- ===== src/Process/Numbers.antt =====
-- `start` keeps the numbering of the processes: the new one has the next pid.
use advanced_operating_syste.Base.{
  ℕ, ◌<◌, ◌≡◌, ◌∙◌, sym, ap, subst, true, false, inl, inr, arith, ◌==◌, Bool-cases, ◌∈◌, ==_iff,
}
use advanced_operating_syste.Base.Int.{
  ℤ, pos, negsuc, pos_part, neg_part, ◌+ℤ◌, ◌≤ℤ◌, ◌==ℤ◌, +ℤ_parts,
}
use advanced_operating_syste.Process.State.{Kernel, Process}
use advanced_operating_syste.Process.Places.{listed, places, count_of_has}
use advanced_operating_syste.Process.Switch.{IsValid}
use advanced_operating_syste.Process.Register.{Registered}
use advanced_operating_syste.Process.Keeps.{Numbered, Numbered-fewer, Keeps, dead_elsewhere}

==ℤ-parts : (a b : ℤ) → (a ==ℤ b) ≡ true → a ≡ b
==ℤ-parts (pos a) (pos b) e = ground arith
==ℤ-parts (pos a) (negsuc b) e = cc
==ℤ-parts (negsuc a) (pos b) e = cc
==ℤ-parts (negsuc a) (negsuc b) e = ground arith

-- A number that is not above `m` is not the next one.
not_next : (a m : ℤ) → a ≤ℤ m → (a ≡ m +ℤ pos 1) → ⊥
not_next a m h e = omega (arith, +ℤ_parts m (pos 1), h, ap pos_part e, ap neg_part e)

up_to_next : (a m : ℤ) → a ≤ℤ m → a ≤ℤ (m +ℤ pos 1)
up_to_next a m h = omega (arith, +ℤ_parts m (pos 1), h)

module _ (s : Kernel) (c p : ℕ) (fresh : Process) (k : Kernel) (v : IsValid s c)
    (new : places s p ≡ 0) (next : fresh.pid ≡ s.pidmax +ℤ pos 1)
    (r : Registered s c p fresh k) where
  new_pid : (k.procs p).pid ≡ s.pidmax +ℤ pos 1
  new_pid = ap (λ q. q.pid) r.process ∙ next

  old_pid : (q : ℕ) → (q == p) ≡ false → (k.procs q).pid ≡ (s.procs q).pid
  old_pid q other = elim (Bool-cases (q == c)) [
    | inr not_parent ↦ ap (λ q. q.pid) (r.others q other not_parent)
    | inl parent ↦
        subst (λ x. (k.procs x).pid ≡ (s.procs x).pid) (sym ((==_iff q c).0 parent))
          (ap (λ q. q.pid) r.parent)
  ]

  old_place : (q : ℕ) → (q == p) ≡ false → 0 < places k q → 0 < places s q
  old_place q other h = ground (arith, r.one_more q)

  module _ (n : Numbered s) where
    old_not_new :
        (q : ℕ) → (q == p) ≡ false → 0 < places k q → ((k.procs q).pid ≡ s.pidmax +ℤ pos 1) → ⊥
    old_not_new q other h e =
        not_next (s.procs q).pid s.pidmax (n.below q (old_place q other h))
          (sym (old_pid q other) ∙ e)

    differ :
        (q t : ℕ)
        → 0 < places k q
        → 0 < places k t
        → (((k.procs q).pid ==ℤ (k.procs t).pid) ≡ true)
        → q ≡ t
    differ q t hq ht same =
        let e = ==ℤ-parts (k.procs q).pid (k.procs t).pid same in
        elim (Bool-cases (q == p)) [
          | inl first ↦ elim (Bool-cases (t == p)) [
            | inl second ↦ ground arith
            | inr other ↦ absurd (
                old_not_new t other ht (
                  sym e
                  ∙ subst (λ x. (k.procs x).pid ≡ s.pidmax +ℤ pos 1) (sym ((==_iff q p).0 first))
                      new_pid))
          ]
          | inr other ↦ elim (Bool-cases (t == p)) [
            | inl second ↦ absurd (
                old_not_new q other hq (
                  e
                  ∙ subst (λ x. (k.procs x).pid ≡ s.pidmax +ℤ pos 1) (sym ((==_iff t p).0 second))
                      new_pid))
            | inr other' ↦ n.differ q t (old_place q other hq) (old_place t other' ht) (
                ap (λ a. a ==ℤ (s.procs t).pid) (sym (old_pid q other))
                ∙ ap (λ a. (k.procs q).pid ==ℤ a) (sym (old_pid t other'))
                ∙ same)
          ]
        ]

    below : (q : ℕ) → 0 < places k q → (k.procs q).pid ≤ℤ k.pidmax
    below q h =
        subst (λ m. (k.procs q).pid ≤ℤ m) (sym (r.counter ∙ next))
          (elim (Bool-cases (q == p)) [
            | inl same ↦
                subst (λ x. (k.procs x).pid ≤ℤ (s.pidmax +ℤ pos 1)) (sym ((==_iff q p).0 same))
                  (omega (arith, ap pos_part new_pid, ap neg_part new_pid))
            | inr other ↦
                subst (λ i. i ≤ℤ (s.pidmax +ℤ pos 1)) (sym (old_pid q other))
                  (up_to_next (s.procs q).pid s.pidmax (n.below q (old_place q other h)))
          ])

  pub Registered-Keeps : Keeps s k
  unfolding places listed
  Registered-Keeps = record {
    dead = λ q w.
        let other : (q == p) ≡ false = ground (arith, new, count_of_has q s.to_kill_list w.1) in
        (r.others q other (dead_elsewhere s c v q w.1), subst (λ l. q ∈ l) (sym r.dead) w.1);
    numbers = λ n. record { differ = differ n; below = below n };
  }

-- Where there is no memory for the stack: a pid is used up, and the rest is as before.
pub no_stack-Keeps :
    (s k : Kernel) (p : ℕ)
    → places s p ≡ 0
    → k.pidmax ≡ s.pidmax +ℤ pos 1
    → k.to_kill_list ≡ s.to_kill_list
    → ((q : ℕ) → places k q ≡ places s q)
    → ((q : ℕ) → (q == p) ≡ false → k.procs q ≡ s.procs q)
    → Keeps s k
unfolding places listed
no_stack-Keeps s k p new counter lists same others = record {
  dead = λ q w. (
    others q (ground (arith, new, count_of_has q s.to_kill_list w.1)),
    subst (λ l. q ∈ l) (sym lists) w.1,
  );
  numbers =
      Numbered-fewer s k (λ q. omega (arith, same q))
        (λ q h. ap (λ r. r.pid) (others q (ground (arith, new, same q))))
        (subst (λ m. s.pidmax ≤ℤ m) (sym counter) (omega (arith, +ℤ_parts s.pidmax (pos 1))));
}
