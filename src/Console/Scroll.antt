-- ===== src/Console/Scroll.antt =====
-- shared/console.c: scrolling.
use advanced_operating_syste.Base.{
  ℕ, suc, ◌+◌, ◌*◌, ◌<◌, ◌≡◌, ◌∙◌, true, ◌&&◌, arith, ltb, leb, if◌then◌else◌, Ends, ap,
}
use advanced_operating_syste.Console.{Console, nb_lig, nb_col, start_vid_addr, defilement}
use advanced_operating_syste.Console.Cells.{at, SameCursor, blank, blank_line}

-- Every line shows what the line below it showed, and the last one is blank.
abbrev pub Scrolled : Console → Console → Type 0
Scrolled s t =
    (l c : ℕ) → l < nb_lig → c < nb_col → at t l c ≡ (if ltb l 24 then at s (suc l) c else blank)

-- After the `memmove`.
abbrev moved : Console → Console
moved s = record s {
  screen = λ a.
      if leb start_vid_addr a && ltb a (start_vid_addr + 24 * nb_col * 2)
      then s.screen (a + nb_col * 2)
      else s.screen a;
}

at-moved : (s : Console) (l c : ℕ) → l < 24 → c < nb_col → at (moved s) l c ≡ at s (suc l) c
unfolding at
at-moved s l c h k =
    let a = start_vid_addr + 2 * (l * nb_col + c) in
    let here : (leb start_vid_addr a && ltb a (start_vid_addr + 24 * nb_col * 2)) ≡ true =
      ground arith in
    let below : a + nb_col * 2 ≡ start_vid_addr + 2 * (suc l * nb_col + c) = omega arith in
    rw here (ap s.screen below)

-- `defilement` moves each line up, the first one out of sight, and blanks the last one.
pub defilement-Ends : (s : Console) → Ends (λ t. SameCursor s t × Scrolled s t) (defilement s)
unfolding defilement
defilement-Ends s =
    let (t, run, b) = blank_line (moved s) 24 (omega arith) in
    (
      t,
      run,
      (
        record {
          same_lig = b.place.same_lig;
          same_col = b.place.same_col;
          same_cursor = b.place.same_cursor;
        },
        λ l c h k. b.cells l c k ∙ ground (arith, at-moved s l c),
      ),
    )
