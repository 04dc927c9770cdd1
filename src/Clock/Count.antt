-- ===== src/Clock/Count.antt =====
-- shared/time.c: the time that the interrupts count, and the corner of the screen that shows it.
use mathlib.Core.List.{reverse}
use advanced_operating_syste.Base.{
  ℕ, zero, suc, ◌-◌, ◌≤◌, ◌<◌, ◌≡◌, refl, ◌∙◌, ap, false, ◌&&◌, Option, none, some, List, [], ◌∷◌,
  arith, ltb, if◌then◌else◌, ◌==◌, Ends, length, get_elem?, Bool-cases, inl, inr,
}
use advanced_operating_syste.Process.State.{Kernel}
use advanced_operating_syste.Console.{Console, nb_lig, nb_col, cell}
use advanced_operating_syste.Console.Cells.{at, ecrit_car-Ends}
use advanced_operating_syste.Clock.{
  Clock, count_tick, split_time, display_back, display_corner, tic_pit,
}

unfoldable pub after_ticks : ℕ → Clock → Clock
after_ticks zero s = s
after_ticks (suc n) s = count_tick (after_ticks n s)

abbrev pub cell_of : Option ℕ → ℕ → ℕ
cell_of none w = w
cell_of (some c) w = cell c

-- The cell that a list of characters, last one first, gives to a column of the first line.
abbrev pub corner : List ℕ → ℕ → Console → ℕ → ℕ → ℕ
corner xs col s l c =
    if (l == 0) && ltb c col then cell_of (get_elem? xs (col - 1 - c)) (at s l c) else at s l c

corner_more :
    (x : ℕ) (xs : List ℕ) (col : ℕ) (s t : Console) (l c : ℕ)
    → at t l c ≡ (if l == 0 then (if c == col then cell x else at s l c) else at s l c)
    → length xs ≤ col
    → corner xs col t l c ≡ corner (x ∷ xs) (suc col) s l c
corner_more x xs col s t l c w h = elim (Bool-cases (c == col)) [
  | inl same ↦
      let first : get_elem? (x ∷ xs) (suc col - 1 - c) ≡ some x =
        ap (get_elem? (x ∷ xs)) {x = suc col - 1 - c} {y = 0} (ground arith) in
      ground (arith, w, first)
  | inr other ↦ elim (Bool-cases (ltb c col)) [
    | inl before ↦
        let later : get_elem? (x ∷ xs) (suc col - 1 - c) ≡ get_elem? xs (col - 1 - c) =
          ap (get_elem? (x ∷ xs)) {x = suc col - 1 - c} {y = suc (col - 1 - c)} (ground arith) in
        ground (arith, w, later)
    | inr behind ↦ ground (arith, w)
  ]
]

display_back-Ends :
    (xs : List ℕ) (col : ℕ) (s : Console)
    → length xs ≤ col
    → col ≤ nb_col
    → Ends
        (λ t. (l c : ℕ) → l < nb_lig → c < nb_col → at t l c ≡ corner xs col s l c)
        (display_back xs col s)
unfolding display_back
display_back-Ends [] col s h k = (s, refl, λ l c a b. ground arith)
display_back-Ends (x ∷ xs) zero s h k = absurd (omega arith)
display_back-Ends (x ∷ xs) (suc col) s h k =
    let (t, run, w) = ecrit_car-Ends 0 col x s (omega arith) (omega arith) in
    let (u, rest, cells) = display_back-Ends xs col t (omega arith) (omega arith) in
    (
      u,
      rw run rest,
      λ l c a b. cells l c a b ∙ corner_more x xs col s t l c (w.cells l c b) (omega arith),
    )

-- A text of at most 80 characters comes to stand at the right end of the first line, its last
-- character in the last column; the other cells stay. (The first loop only finds its end.)
pub display_corner-Ends :
    (text : List ℕ) (s : Console)
    → length (reverse text) ≤ nb_col
    → Ends
        (λ t. (l c : ℕ) → l < nb_lig → c < nb_col → at t l c ≡ corner (reverse text) nb_col s l c)
        (display_corner text s)
unfolding display_corner
display_corner-Ends text s h = display_back-Ends (reverse text) 80 s h (omega arith)

-- "hh:mm:ss" has eight characters and fills the buffer, so that the final zero falls behind it:
-- with any `sprintf` that gives so long a text, no clock interrupt can be served.
pub tic_pit_overflow :
    (format : ℕ × ℕ × ℕ → List ℕ) (clock : Clock) (k : Kernel) (s : Console)
    → ((hms : ℕ × ℕ × ℕ) → 8 ≤ length (format hms))
    → tic_pit format clock k s ≡ none
unfolding tic_pit
tic_pit_overflow format clock k s long =
    let full : ltb (length (format (split_time (count_tick clock).time))) 8 ≡ false =
      ground (arith, long (split_time (count_tick clock).time)) in
    rw full refl
