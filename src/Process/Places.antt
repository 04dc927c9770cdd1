-- ===== src/Process/Places.antt =====
-- Where a process is: each list and the processor count as one place.
use advanced_operating_syste.Base.{
  ℕ, ◌+◌, ◌≤◌, ◌<◌, ◌≡◌, refl, Bool, Bool-cases, inl, inr, true, false, Option, none, some, List,
  [], ◌∷◌, arith, ◌==◌, if◌then◌else◌, has, ◌∉◌,
}
use advanced_operating_syste.Queue.Insert.{insert}
use advanced_operating_syste.Queue.Order.{count}
use advanced_operating_syste.Process.State.{
  Kernel, prio_of, linked, add_process_list, add_sleeping_list, add_to_kill_list, remove, find,
  Process,
}

unfoldable pub runs : Option ℕ → ℕ → ℕ
runs none p = 0
runs (some c) p = if p == c then 1 else 0

unfoldable pub listed : Kernel → ℕ → ℕ
listed s p = count p s.process_list + count p s.sleeping_list + count p s.to_kill_list

unfoldable pub places : Kernel → ℕ → ℕ
places s p = listed s p + runs s.running p

-- No process is in two places.
pub record IsPlaced (s : Kernel) : Type 0 where
  pub once : (p : ℕ) → places s p ≤ 1

has_of_count : (p : ℕ) (xs : List ℕ) → count p xs ≡ 0 → p ∉ xs
unfolding count
has_of_count p [] e = refl
has_of_count p (x ∷ xs) e = ground (arith, has_of_count p xs)

pub not_linked : (s : Kernel) (p : ℕ) → listed s p ≡ 0 → linked s p ≡ false
unfolding listed linked
not_linked s p e = ground (
  arith,
  has_of_count p s.process_list (omega arith),
  has_of_count p s.sleeping_list (omega arith),
  has_of_count p s.to_kill_list (omega arith),
)

-- `queue_add` does not fail on a process that is in no list.
module _ (s : Kernel) (p : ℕ) (free : listed s p ≡ 0) where
  pub add_process_list-some :
      add_process_list p s ≡ some (record s { process_list = insert (prio_of s) p s.process_list })
  unfolding add_process_list
  add_process_list-some = rw (not_linked s p free) refl

  pub add_sleeping_list-some :
      add_sleeping_list p s
      ≡ some (record s { sleeping_list = insert (prio_of s) p s.sleeping_list })
  unfolding add_sleeping_list
  add_sleeping_list-some = rw (not_linked s p free) refl

  pub add_to_kill_list-some :
      add_to_kill_list p s ≡ some (record s { to_kill_list = insert (prio_of s) p s.to_kill_list })
  unfolding add_to_kill_list
  add_to_kill_list-some = rw (not_linked s p free) refl

-- Taking out an element that was just put in gives the list back.
pub remove-insert :
    (prio : ℕ → ℕ) (p : ℕ) (xs : List ℕ) → count p xs ≡ 0 → remove p (insert prio p xs) ≡ xs
unfolding remove insert count
remove-insert prio p [] e = ground arith
remove-insert prio p (x ∷ xs) e = ground (arith, remove-insert prio p xs)

pub remove_absent : (p : ℕ) (xs : List ℕ) → count p xs ≡ 0 → remove p xs ≡ xs
unfolding remove count
remove_absent p [] e = refl
remove_absent p (x ∷ xs) e = ground (arith, remove_absent p xs)

pub count-remove :
    (a p : ℕ) (xs : List ℕ)
    → has p xs ≡ true
    → (if a == p then 1 else 0) + count a (remove p xs) ≡ count a xs
unfolding remove count
count-remove a p [] h = cc
count-remove a p (x ∷ xs) h = ground (arith, count-remove a p xs)

pub listed-le-places : (s : Kernel) (p : ℕ) → listed s p ≤ places s p
unfolding places
listed-le-places s p = omega arith

-- A process that is found by a loop over a list is in the list and passes the test.
pub find-mem :
    (test : Process → Bool) (procs : ℕ → Process) (xs : List ℕ) (p : ℕ)
    → find test procs xs ≡ some p
    → (has p xs ≡ true) × (test (procs p) ≡ true)
unfolding find
find-mem test procs [] p e = cc
find-mem test procs (x ∷ xs) p e = elim (Bool-cases (test (procs x))) [
  | inl hit ↦ ground arith
  | inr miss ↦ let (i, t) = find-mem test procs xs p (rw miss at e) in (ground arith, t)
]

-- None is found if no element of the list passes the test.
pub find-none :
    (test : Process → Bool) (procs : ℕ → Process) (xs : List ℕ)
    → ((p : ℕ) → has p xs ≡ true → test (procs p) ≡ false)
    → find test procs xs ≡ none
unfolding find
find-none test procs [] h = refl
find-none test procs (x ∷ xs) h =
    rw (h x (ground arith)) (find-none test procs xs (λ p i. h p (ground arith)))

pub count_of_has : (p : ℕ) (xs : List ℕ) → has p xs ≡ true → 0 < count p xs
unfolding count
count_of_has p [] h = cc
count_of_has p (x ∷ xs) h = ground (arith, count_of_has p xs)

pub has-places : (s : Kernel) (p : ℕ) → has p s.process_list ≡ true → 0 < places s p
unfolding places listed
has-places s p i = omega (arith, count_of_has p s.process_list i)
