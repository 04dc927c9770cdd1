-- ===== src/Queue/Order.antt =====
-- The lists that `queue_add` and `queue_out` make: sorted by priority, first in first out within
-- one.
use advanced_operating_syste.Base.{
  ℕ, suc, ◌+◌, ◌≤◌, ◌≡◌, refl, List, [], ◌∷◌, ◌++◌, arith, ◌==◌, ltb, if◌then◌else◌, last_or, front,
  length, All, Bool-cases, inl, inr, All-prefix, false, ◌∈◌,
}
use advanced_operating_syste.Queue.Insert.{insert}

-- How often an element occurs.
unfoldable pub count : ℕ → List ℕ → ℕ
count a [] = 0
count a (x ∷ xs) = (if a == x then 1 else 0) + count a xs

pub count-insert :
    (prio : ℕ → ℕ) (x a : ℕ) (xs : List ℕ)
    → count a (insert prio x xs) ≡ (if a == x then 1 else 0) + count a xs
unfolding count insert
count-insert prio x a [] = refl
count-insert prio x a (y ∷ ys) = ground (arith, count-insert prio x a ys)

pub has-insert : (prio : ℕ → ℕ) (p : ℕ) (xs : List ℕ) → p ∈ insert prio p xs
unfolding insert
has-insert prio p [] = ground arith
has-insert prio p (x ∷ xs) = ground (arith, has-insert prio p xs)

pub insert-has : (prio : ℕ → ℕ) (q p : ℕ) (xs : List ℕ) → p ∈ xs → p ∈ insert prio q xs
unfolding insert
insert-has prio q p [] h = cc
insert-has prio q p (x ∷ xs) h = ground (arith, insert-has prio q p xs)

pub count-front :
    (a x : ℕ) (xs : List ℕ)
    → (if a == last_or x xs then 1 else 0) + count a (front (x ∷ xs)) ≡ count a (x ∷ xs)
unfolding count
count-front a x [] = refl
count-front a x (y ∷ ys) = ground (arith, count-front a y ys)

pub length-insert :
    (prio : ℕ → ℕ) (x : ℕ) (xs : List ℕ) → length (insert prio x xs) ≡ suc (length xs)
unfolding insert
length-insert prio x [] = refl
length-insert prio x (y ∷ ys) = ground (arith, length-insert prio x ys)

-- Priorities do not fall along the list.
abbrev pub Sorted : (ℕ → ℕ) → List ℕ → Type 0
Sorted prio [] = Unit {0}
Sorted prio (x ∷ xs) = All (λ y. prio x ≤ prio y) xs × Sorted prio xs

All-le_trans :
    (prio : ℕ → ℕ) (a b : ℕ) (xs : List ℕ)
    → a ≤ b
    → All (λ y. b ≤ prio y) xs
    → All (λ y. a ≤ prio y) xs
All-le_trans prio a b [] h all = tt
All-le_trans prio a b (x ∷ xs) h all = (omega arith, All-le_trans prio a b xs h all.1)

pub All-insert {ℓ} :
    (P : ℕ → Type ℓ) (prio : ℕ → ℕ) (x : ℕ) (xs : List ℕ)
    → P x
    → All P xs
    → All P (insert prio x xs)
unfolding insert
All-insert P prio x [] h all = (h, tt)
All-insert P prio x (y ∷ ys) h all = elim (Bool-cases (ltb (prio y) (prio x))) [
  | inl e ↦ rw e (all.0, All-insert P prio x ys h all.1)
  | inr e ↦ rw e (h, all)
]

-- A list in increasing order of priority stays so when an element comes in.
pub insert-Sorted :
    (prio : ℕ → ℕ) (x : ℕ) (xs : List ℕ) → Sorted prio xs → Sorted prio (insert prio x xs)
unfolding insert
insert-Sorted prio x [] s = (tt, tt)
insert-Sorted prio x (y ∷ ys) s = elim (Bool-cases (ltb (prio y) (prio x))) [
  | inl e ↦
      rw e (
        All-insert (λ z. prio y ≤ prio z) prio x ys (ground arith) s.0,
        insert-Sorted prio x ys s.1,
      )
  | inr e ↦
      let h : prio x ≤ prio y = ground arith in
      rw e ((h, All-le_trans prio (prio x) (prio y) ys h s.0), s)
]

pub All-front {ℓ} :
    (P : ℕ → Type ℓ) (x : ℕ) (xs : List ℕ)
    → All P (x ∷ xs)
    → All P (front (x ∷ xs)) × P (last_or x xs)
All-front P x [] all = (tt, all.0)
All-front P x (y ∷ ys) all = let (rest, last) = All-front P y ys all.1 in ((all.0, rest), last)

pub front-Sorted :
    (prio : ℕ → ℕ) (x : ℕ) (xs : List ℕ) → Sorted prio (x ∷ xs) → Sorted prio (front (x ∷ xs))
front-Sorted prio x [] s = tt
front-Sorted prio x (y ∷ ys) s =
    ((All-front (λ z. prio x ≤ prio z) y ys s.0).0, front-Sorted prio y ys s.1)

-- The element that `queue_out` takes has the highest priority.
pub last-highest :
    (prio : ℕ → ℕ) (x : ℕ) (xs : List ℕ)
    → Sorted prio (x ∷ xs)
    → All (λ y. prio y ≤ prio (last_or x xs)) (x ∷ xs)
last-highest prio x [] s = (omega arith, tt)
last-highest prio x (y ∷ ys) s =
    ((All-front (λ z. prio x ≤ prio z) y ys s.0).1, last-highest prio y ys s.1)

-- The elements of one priority, in the order of the list.
unfoldable pub level : (ℕ → ℕ) → ℕ → List ℕ → List ℕ
level prio p [] = []
level prio p (x ∷ xs) = if prio x == p then x ∷ level prio p xs else level prio p xs

-- A new element comes behind all others of its priority (`queue_out` takes from the other end), and
-- does not move those of another priority.
pub level-insert :
    (prio : ℕ → ℕ) (p x : ℕ) (xs : List ℕ)
    → level prio p (insert prio x xs)
      ≡ (if prio x == p then x ∷ level prio p xs else level prio p xs)
unfolding level insert
level-insert prio p x [] = refl
level-insert prio p x (y ∷ ys) = ground (arith, level-insert prio p x ys)

pub Sorted-prefix : (prio : ℕ → ℕ) (xs ys : List ℕ) → Sorted prio (xs ++ ys) → Sorted prio xs
Sorted-prefix prio [] ys s = tt
Sorted-prefix prio (x ∷ xs) ys s =
    (All-prefix (λ z. prio x ≤ prio z) xs ys s.0, Sorted-prefix prio xs ys s.1)

-- The order depends only on the priorities of the elements in the list.
All-le-members :
    (f g : ℕ → ℕ) (m n : ℕ) (xs : List ℕ)
    → n ≡ m
    → All (λ x. g x ≡ f x) xs
    → All (λ y. m ≤ f y) xs
    → All (λ y. n ≤ g y) xs
All-le-members f g m n [] e same h = tt
All-le-members f g m n (x ∷ xs) e same h = (omega arith, All-le-members f g m n xs e same.1 h.1)

pub Sorted-members :
    (f g : ℕ → ℕ) (xs : List ℕ) → All (λ x. g x ≡ f x) xs → Sorted f xs → Sorted g xs
Sorted-members f g [] same s = tt
Sorted-members f g (x ∷ xs) same s =
    (All-le-members f g (f x) (g x) xs same.0 same.1 s.0, Sorted-members f g xs same.1 s.1)

pub All-others {ℓ} :
    (P : ℕ → Type ℓ) (p : ℕ) (xs : List ℕ)
    → ((q : ℕ) → (q == p) ≡ false → P q)
    → count p xs ≡ 0
    → All P xs
unfolding count
All-others P p [] h e = tt
All-others P p (x ∷ xs) h e = (h x (ground arith), All-others P p xs h (ground arith))
