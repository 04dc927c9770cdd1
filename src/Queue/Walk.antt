-- ===== src/Queue/Walk.antt =====
-- shared/queue.h: the test for the empty list, and the loops over a list in both directions.
use mathlib.Core.List.{reverse, reverse-append}
use advanced_operating_syste.Base.{
  ℕ, zero, suc, ◌<◌, ◌≡◌, refl, sym, ◌∙◌, ap, true, false, some, List, [], ◌∷◌, ◌++◌, arith, ◌==◌,
  ◌∉◌, has, last_or, front, front-append-last, has-append, length, length-append, ==-ne, ◌↔◌,
}
use advanced_operating_syste.Queue.{Links, queue_empty, walk, queue_for_each, queue_for_each_prev}
use advanced_operating_syste.Queue.Remove.{head_unlinked}
use advanced_operating_syste.Queue.Segs.{Seg, Ring, Seg-last, Seg-split}

pub queue_empty-nil :
    (m : Links) (head : ℕ) (xs : List ℕ) → Ring m head xs → (queue_empty head m ≡ true) ↔ (xs ≡ [])
unfolding queue_empty
queue_empty-nil m head [] r = ((λ h. refl), λ h. ground (arith, r.chain.0))
queue_empty-nil m head (x ∷ xs) r = let ne = head_unlinked m head x xs r in ((λ h. cc), λ h. cc)

walk-Seg :
    (m : Links) (head a : ℕ) (fuel : ℕ) (xs : List ℕ)
    → length xs < fuel
    → head ∉ xs
    → Seg m a xs head
    → walk fuel m.next head (m.next a) ≡ some xs
unfolding walk
walk-Seg m head a zero xs h out s = elim h [ ]
walk-Seg m head a (suc fuel) [] h out s = ground arith
walk-Seg m head a (suc fuel) (x ∷ xs) h out s =
    let rest = walk-Seg m head x fuel xs (ground arith) (ground arith) s.2 in
    rw (s.0, rest, ==-ne x head (λ e. ground arith)) refl

walk_back-Seg :
    (m : Links) (head : ℕ) (fuel b : ℕ) (xs : List ℕ)
    → length xs < fuel
    → head ∉ xs
    → Seg m head xs b
    → walk fuel m.prev head (m.prev b) ≡ some (reverse xs)
unfolding walk
walk_back-Seg m head zero b xs h out s = elim h [ ]
walk_back-Seg m head (suc fuel) b [] h out s = ground arith
walk_back-Seg m head (suc fuel) b (x ∷ xs) h out s =
    let z = last_or x xs in
    let ys = front (x ∷ xs) in
    let split : ys ++ z ∷ [] ≡ x ∷ xs = front-append-last x xs in
    let s' : Seg m head (ys ++ z ∷ []) b = rw split s in
    let size = length-append ys (z ∷ []) ∙ refl in
    let places = has-append head ys (z ∷ []) in
    let rest =
      walk_back-Seg m head fuel z ys (omega (arith, sym (ap length split), size))
        (ground (arith, ap (has head) split)) (Seg-split m head b ys (z ∷ []) s').0 in
    let other : (z == head) ≡ false = ground (arith, ap (has head) split) in
    let turned : reverse (x ∷ xs) ≡ z ∷ reverse ys =
      ap reverse (sym split) ∙ reverse-append ys (z ∷ []) in
    rw (Seg-last m x b xs s.2, rest, other) (ap some (sym turned))

-- `queue_for_each` visits each element once, in the order of the list, and ends.
pub queue_for_each-Ring :
    (m : Links) (head fuel : ℕ) (xs : List ℕ)
    → Ring m head xs
    → length xs < fuel
    → queue_for_each fuel head m ≡ some xs
unfolding queue_for_each
queue_for_each-Ring m head fuel xs r enough =
    walk-Seg m head head fuel xs enough r.distinct.0 r.chain

-- `queue_for_each_prev` visits them in the opposite order.
pub queue_for_each_prev-Ring :
    (m : Links) (head fuel : ℕ) (xs : List ℕ)
    → Ring m head xs
    → length xs < fuel
    → queue_for_each_prev fuel head m ≡ some (reverse xs)
unfolding queue_for_each_prev
queue_for_each_prev-Ring m head fuel xs r enough =
    walk_back-Seg m head fuel head xs enough r.distinct.0 r.chain
