-- ===== src/Console/Print.antt =====
-- shared/console.c: what a printable character does to the screen.
use advanced_operating_syste.Base.{
  ℕ, suc, ◌+◌, ◌*◌, ◌%◌, ◌^◌, ◌<◌, ◌≡◌, refl, ◌∙◌, sym, subst, Bool, true, false, some, arith, ltb,
  leb, if◌then◌else◌, Ends, ◌==◌, Bool-cases, inl, inr,
}
use advanced_operating_syste.Console.{
  Console, nb_lig, nb_col, cell, place_curseur, saut_de_ligne, imprime, is_control, traite_car,
}
use advanced_operating_syste.Console.Cells.{at, blank, ecrit_car-Ends}
use advanced_operating_syste.Console.Scroll.{defilement-Ends}
use advanced_operating_syste.Console.Bounds.{OnScreen}

-- The position of the cursor, counted from the top left corner.
abbrev pub position : Console → ℕ
position s = s.lig * nb_col + s.col

-- The cells with one character more.
abbrev pub with_char : Console → ℕ → ℕ → ℕ → ℕ
with_char s w l c = if l == s.lig then (if c == s.col then w else at s l c) else at s l c

-- Before the last cell: the character is where the cursor was, and the cursor is one further.
pub record Typed (s : Console) (c : ℕ) (t : Console) : Type 0 where
  pub moved : position t ≡ suc (position s)
  pub cells : (l k : ℕ) → l < nb_lig → k < nb_col → at t l k ≡ with_char s (cell c) l k

-- In the last cell: the screen has scrolled with the character, and the cursor is at the start of
-- the last line.
pub record TypedLast (s : Console) (c : ℕ) (t : Console) : Type 0 where
  pub moved : position t ≡ 24 * nb_col
  pub cells :
      (l k : ℕ)
      → l < nb_lig
      → k < nb_col
      → at t l k ≡ (if ltb l 24 then with_char s (cell c) (suc l) k else blank)

module _ (c : ℕ) (s : Console) (on : OnScreen s) (printable : is_control c ≡ false) where
  placed :
      (t : Console) → imprime c s ≡ some t → traite_car c s ≡ some (place_curseur t.lig t.col t)
  unfolding traite_car
  placed t run = rw (printable, run) refl

  -- The three ways to go on from the character.
  in_line : suc s.col < nb_col → Ends (Typed s c) (traite_car c s)
  unfolding imprime at place_curseur
  in_line fits =
      let (t, run, w) = ecrit_car-Ends s.lig s.col c s on.0 on.1 in
      let next : Console = record t { col = (t.col + 1) % 2 ^ 16 } in
      let stays : leb nb_col ((t.col + 1) % 2 ^ 16) ≡ false = ground (arith, w.place.same_col) in
      (
        place_curseur next.lig next.col next,
        placed next (rw (run, stays) refl),
        record {
          moved = omega (arith, w.place.same_lig, w.place.same_col);
          cells = λ l k h j. w.cells l k j;
        },
      )

  next_line : suc s.col ≡ nb_col → suc s.lig < nb_lig → Ends (Typed s c) (traite_car c s)
  unfolding imprime saut_de_ligne at place_curseur
  next_line ends fits =
      let (t, run, w) = ecrit_car-Ends s.lig s.col c s on.0 on.1 in
      let next : Console = record t { col = 0; lig = (t.lig + 1) % 2 ^ 16 } in
      let over : leb nb_col ((t.col + 1) % 2 ^ 16) ≡ true = ground (arith, w.place.same_col) in
      let stays : leb nb_lig ((t.lig + 1) % 2 ^ 16) ≡ false = ground (arith, w.place.same_lig) in
      (
        place_curseur next.lig next.col next,
        placed next (rw (run, over, stays) refl),
        record { moved = omega (arith, w.place.same_lig); cells = λ l k h j. w.cells l k j },
      )

  last_cell : suc s.col ≡ nb_col → suc s.lig ≡ nb_lig → Ends (TypedLast s c) (traite_car c s)
  unfolding imprime saut_de_ligne at place_curseur
  last_cell ends last =
      let (t, run, w) = ecrit_car-Ends s.lig s.col c s on.0 on.1 in
      let full : Console = record t { col = 0; lig = (t.lig + 1) % 2 ^ 16 } in
      let (u, up, (place, scrolled)) = defilement-Ends full in
      let next : Console = record u { lig = 24 } in
      let over : leb nb_col ((t.col + 1) % 2 ^ 16) ≡ true = ground (arith, w.place.same_col) in
      let below : leb nb_lig ((t.lig + 1) % 2 ^ 16) ≡ true = ground (arith, w.place.same_lig) in
      (
        place_curseur next.lig next.col next,
        placed next (rw (run, over, below, up) refl),
        record {
          moved = omega (arith, place.same_col);
          cells = λ l k h j. scrolled l k h j ∙ ground (arith, w.cells (suc l) k j);
        },
      )

  -- A printable character goes into the cell under the cursor, which moves on to the next cell; in
  -- the last cell the screen scrolls up by a line instead.
  pub traite_car-Typed :
      Ends
        (λ t. if ltb (suc (position s)) (nb_lig * nb_col) then Typed s c t else TypedLast s c t)
        (traite_car c s)
  traite_car-Typed =
      let Result : Bool → Type 0 =
        λ b. Ends (λ t. if b then Typed s c t else TypedLast s c t) (traite_car c s) in
      elim (Bool-cases (ltb (suc s.col) nb_col)) [
        | inl fits ↦
            let yes : ltb (suc (position s)) (nb_lig * nb_col) ≡ true = ground arith in
            subst Result (sym yes) (in_line (ground arith))
        | inr ends ↦ elim (Bool-cases (ltb (suc s.lig) nb_lig)) [
          | inl fits ↦
              let yes : ltb (suc (position s)) (nb_lig * nb_col) ≡ true = ground arith in
              subst Result (sym yes) (next_line (ground arith) (ground arith))
          | inr last ↦
              let no : ltb (suc (position s)) (nb_lig * nb_col) ≡ false = ground arith in
              subst Result (sym no) (last_cell (ground arith) (ground arith))
        ]
      ]
