-- ===== src/Process/Turns.antt =====
-- Clock interrupts among processes of one priority: they run in turn.
mod Tests
use advanced_operating_syste.Base.{
  ℕ, zero, suc, ◌+◌, ◌≤◌, ◌<◌, ◌≡◌, refl, ◌∙◌, sym, ap, subst, Bool, true, false, Option, none,
  some, List, [], ◌∷◌, ◌++◌, inl, inr, arith, ◌==◌, if◌then◌else◌, ◌>>=◌, last_or, front,
  front-append-last, length, length-front, All, All-map, All-mem, All-prefix, Bool-cases, has, ◌∈◌,
  has-append, ==_iff,
}
use mathlib.Core.List.{append_assoc}
use advanced_operating_syste.Queue.Segs.{last-mem}
use advanced_operating_syste.Queue.Insert.{insert}
use advanced_operating_syste.Queue.Order.{count}
use advanced_operating_syste.Process.State.{Kernel, chosen, activable, prio_of, state_of, is_zombie}
use advanced_operating_syste.Process.Schedule.{ordonnance}
use advanced_operating_syste.Process.Places.{runs, listed, places, count_of_has}
use advanced_operating_syste.Process.Switch.{IsValid, left_state, left_list}
use advanced_operating_syste.Process.Outcome.{Outcome, stays, switches, Switches}
use advanced_operating_syste.Process.Choice.{ordonnance-Outcome}
use advanced_operating_syste.Process.Fair.{InTurn, tick_turn}

-- Clock interrupts, and nothing else.
unfoldable pub ticks : ℕ → Kernel → Option Kernel
ticks zero s = some s
ticks (suc n) s = do (s, _) ← ordonnance s; ticks n s

rounds :
    (n : ℕ) (s : Kernel) (c z prio : ℕ) (low ys zs : List ℕ)
    → length zs ≡ n
    → InTurn s c prio low (ys ++ z ∷ zs)
    → (t : Kernel) × (ticks (suc n) s ≡ some t) × InTurn t z prio low (zs ++ c ∷ ys)
unfolding ticks
rounds n s c z prio low ys [] e t =
    let (u, run, next) = tick_turn s c z prio low ys t in
    (u, subst (λ n. ticks (suc n) s ≡ some u) e (rw run refl), next)
rounds zero s c z prio low ys (x ∷ xs) e t = absurd (omega arith)
rounds (suc n) s c z prio low ys (x ∷ xs) e t =
    let w = last_or x xs in
    let f = front (x ∷ xs) in
    let whole : (ys ++ z ∷ f) ++ w ∷ [] ≡ ys ++ z ∷ x ∷ xs =
      append_assoc ys (z ∷ f) (w ∷ []) ∙ ap (λ l. ys ++ z ∷ l) (front-append-last x xs) in
    let (u, run, next) =
      tick_turn s c w prio low (ys ++ z ∷ f) (subst (InTurn s c prio low) (sym whole) t) in
    let (v, later, last) =
      rounds n u w z prio low (c ∷ ys) f (omega (arith, e, length-front x xs)) next in
    let order : f ++ w ∷ c ∷ ys ≡ x ∷ xs ++ c ∷ ys =
      sym (append_assoc f (w ∷ []) (c ∷ ys)) ∙ ap (λ l. l ++ c ∷ ys) (front-append-last x xs) in
    (v, rw run later, subst (InTurn v z prio low) order last)

-- In a valid kernel in which the running process has a priority that no ready one exceeds, and the
-- ready ones of the same priority have neither terminated nor blocked, each of these gets the
-- processor after as many clock interrupts as there are such processes to go before it, and one;
-- those before it then stand behind it in the order in which they came, and the ready processes of
-- lower priority have not moved.
pub ticks-InTurn :
    (s : Kernel) (c z prio : ℕ) (low ys zs : List ℕ)
    → InTurn s c prio low (ys ++ z ∷ zs)
    → (t : Kernel) × (ticks (suc (length zs)) s ≡ some t) × InTurn t z prio low (zs ++ c ∷ ys)
ticks-InTurn s c z prio low ys zs = rounds (length zs) s c z prio low ys zs refl
