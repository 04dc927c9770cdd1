-- ===== src/Console/Cells.antt =====
-- shared/console.c: writing one cell, a line and the whole screen.
use advanced_operating_syste.Base.{
  ℕ, suc, ◌+◌, ◌*◌, ◌≤◌, ◌<◌, ◌≡◌, refl, ◌∙◌, false, ◌||◌, arith, ◌==◌, ltb, leb, if◌then◌else◌,
  for_up, Ends, for_up-Ends,
}
use advanced_operating_syste.Console.{
  Console, nb_lig, nb_col, start_vid_addr, ptr_mem, cell, ecrit_car, efface_ecran,
}

-- The word at a line and a column.
unfoldable pub at : Console → ℕ → ℕ → ℕ
at s l c = s.screen (start_vid_addr + 2 * (l * nb_col + c))

-- Only the screen has changed.
pub record SameCursor (s t : Console) : Type 0 where
  pub same_lig : t.lig ≡ s.lig
  pub same_col : t.col ≡ s.col
  pub same_cursor : t.cursor ≡ s.cursor

-- A position on the screen can be written, and the write changes that cell only.
pub record Wrote (s : Console) (lig col w : ℕ) (t : Console) : Type 0 where
  pub place : SameCursor s t
  pub cells :
      (l c : ℕ)
      → c < nb_col
      → at t l c ≡ (if l == lig then (if c == col then w else at s l c) else at s l c)
  pub outside : (a : ℕ) → start_vid_addr + 2 * (nb_lig * nb_col) ≤ a → t.screen a ≡ s.screen a

pub ecrit_car-Ends :
    (lig col c : ℕ) (s : Console)
    → lig < nb_lig
    → col < nb_col
    → Ends (Wrote s lig col (cell c)) (ecrit_car lig col c s)
unfolding ecrit_car ptr_mem at
ecrit_car-Ends lig col c s hl hc =
    let addr = start_vid_addr + 2 * (lig * nb_col + col) in
    let inside : (leb nb_lig lig || leb nb_col col) ≡ false = ground arith in
    (
      record s { screen = λ a. if a == addr then cell c else s.screen a },
      rw inside refl,
      record {
        place = record { same_lig = refl; same_col = refl; same_cursor = refl };
        cells = λ l k h. ground arith;
        outside = λ a h. ground arith;
      },
    )

abbrev pub blank : ℕ
unfolding cell
blank = cell 32

-- A line is blank from the left up to a column.
record BlankTo (s : Console) (lig col : ℕ) (t : Console) : Type 0 where
  place : SameCursor s t
  cells :
      (l c : ℕ)
      → c < nb_col
      → at t l c ≡ (if l == lig then (if ltb c col then blank else at s l c) else at s l c)
  outside : (a : ℕ) → start_vid_addr + 2 * (nb_lig * nb_col) ≤ a → t.screen a ≡ s.screen a

SameCursor-trans : {s t u : Console} → SameCursor s t → SameCursor t u → SameCursor s u
SameCursor-trans p q = record {
  same_lig = q.same_lig ∙ p.same_lig;
  same_col = q.same_col ∙ p.same_col;
  same_cursor = q.same_cursor ∙ p.same_cursor;
}

blank_more :
    (s : Console) (lig col : ℕ) (t : Console)
    → lig < nb_lig
    → col < nb_col
    → BlankTo s lig col t
    → Ends (BlankTo s lig (suc col)) (ecrit_car lig col 32 t)
unfolding cell
blank_more s lig col t hl hc b =
    let (u, run, w) = ecrit_car-Ends lig col 32 t hl hc in
    (
      u,
      run,
      record {
        place = SameCursor-trans b.place w.place;
        cells = λ l c h. w.cells l c h ∙ ground (arith, b.cells l c h);
        outside = λ a h. w.outside a h ∙ b.outside a h;
      },
    )

-- A line after the loop that blanks it.
pub record BlankLine (s : Console) (lig : ℕ) (t : Console) : Type 0 where
  pub place : SameCursor s t
  pub cells : (l c : ℕ) → c < nb_col → at t l c ≡ (if l == lig then blank else at s l c)
  pub outside : (a : ℕ) → start_vid_addr + 2 * (nb_lig * nb_col) ≤ a → t.screen a ≡ s.screen a

pub blank_line :
    (s : Console) (lig : ℕ)
    → lig < nb_lig
    → Ends (BlankLine s lig) (for_up nb_col (λ c. ecrit_car lig c 32) s)
blank_line s lig hl =
    let start : BlankTo s lig 0 s = record {
      place = record { same_lig = refl; same_col = refl; same_cursor = refl };
      cells = λ l c h. ground arith;
      outside = λ a h. refl;
    } in
    let (t, run, b) =
      for_up-Ends (BlankTo s lig) (λ c. ecrit_car lig c 32) nb_col s start
        (λ i u h. blank_more s lig i u hl h) in
    (
      t,
      run,
      record {
        place = b.place;
        cells = λ l c h. b.cells l c h ∙ ground arith;
        outside = b.outside;
      },
    )

-- The lines above one are blank.
record BlankAbove (s : Console) (lig : ℕ) (t : Console) : Type 0 where
  place : SameCursor s t
  cells : (l c : ℕ) → c < nb_col → at t l c ≡ (if ltb l lig then blank else at s l c)

-- `efface_ecran` blanks every cell of the screen, and moves nothing.
pub efface_ecran-Ends :
    (s : Console)
    → Ends
        (λ t. SameCursor s t × ((l c : ℕ) → l < nb_lig → c < nb_col → at t l c ≡ blank))
        (efface_ecran s)
unfolding efface_ecran
efface_ecran-Ends s =
    let start : BlankAbove s 0 s = record {
      place = record { same_lig = refl; same_col = refl; same_cursor = refl };
      cells = λ l c h. ground arith;
    } in
    let (t, run, b) =
      for_up-Ends (BlankAbove s) (λ l. for_up nb_col (λ c. ecrit_car l c 32)) nb_lig s start
        (λ i u h b.
          let (v, line, n) = blank_line u i h in
          (
            v,
            line,
            record {
              place = SameCursor-trans b.place n.place;
              cells = λ l c k. n.cells l c k ∙ ground (arith, b.cells l c k);
            },
          )) in
    (t, run, (b.place, λ l c h k. b.cells l c k ∙ ground arith))
