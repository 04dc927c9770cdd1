-- ===== src/Console/Bounds.antt =====
-- shared/console.c: the cursor stays on the screen, and what a character does.
use advanced_operating_syste.Base.{
  ℕ, ◌+◌, ◌-◌, ◌*◌, ◌%◌, ◌^◌, ◌<◌, ◌≡◌, refl, arith, ltb, leb, if◌then◌else◌, Ends, if-Ends, ◌==◌,
  Bool-cases, inl, inr,
}
use advanced_operating_syste.Console.{
  Console, nb_lig, nb_col, place_curseur, saut_de_ligne, controle, imprime, is_control, traite_car,
}
use advanced_operating_syste.Console.Cells.{ecrit_car-Ends, efface_ecran-Ends}
use advanced_operating_syste.Console.Scroll.{defilement-Ends}

abbrev pub OnScreen : Console → Type 0
OnScreen s = (s.lig < nb_lig) × (s.col < nb_col)

-- The display has the position of the cursor, in two bytes.
abbrev pub Placed : Console → Type 0
Placed s = s.cursor.1 * 2 ^ 8 + s.cursor.0 ≡ s.lig * nb_col + s.col

place_curseur-Placed :
    (s : Console)
    → OnScreen s
    → OnScreen (place_curseur s.lig s.col s) × Placed (place_curseur s.lig s.col s)
unfolding place_curseur
place_curseur-Placed s h = (h, omega (arith, h))

saut_de_ligne-Ends : (s : Console) → s.lig < nb_lig → Ends OnScreen (saut_de_ligne s)
unfolding saut_de_ligne
saut_de_ligne-Ends s h =
    let next : Console = record s { col = 0; lig = (s.lig + 1) % 2 ^ 16 } in
    elim (Bool-cases (leb nb_lig ((s.lig + 1) % 2 ^ 16))) [
      | inl below ↦
          let (t, run, moved) = defilement-Ends next in
          (
            record t { lig = 24 },
            rw (below, run) refl,
            (omega arith, ground (arith, moved.0.same_col)),
          )
      | inr fits ↦ (next, rw fits refl, ground arith)
    ]

imprime-Ends : (c : ℕ) (s : Console) → OnScreen s → Ends OnScreen (imprime c s)
unfolding imprime
imprime-Ends c s h =
    let (t, run, w) = ecrit_car-Ends s.lig s.col c s h.0 h.1 in
    let next : Console = record t { col = (t.col + 1) % 2 ^ 16 } in
    elim (Bool-cases (leb nb_col ((t.col + 1) % 2 ^ 16))) [
      | inl over ↦
          let (u, jump, on) = saut_de_ligne-Ends next (ground (arith, w.place.same_lig)) in
          (u, rw (run, over) jump, on)
      | inr fits ↦ (next, rw (run, fits) refl, (ground (arith, w.place.same_lig), ground arith))
    ]

controle-Ends : (c : ℕ) (s : Console) → OnScreen s → Ends OnScreen (controle c s)
unfolding controle
controle-Ends c s h =
    if-Ends OnScreen (c == 8)
      (λ _. (if ltb 0 s.col then record s { col = s.col - 1 } else s, refl, ground arith))
      λ _.
        if-Ends OnScreen (c == 9)
          (λ _. (
            if leb s.col 72 then record s { col = (s.col + 4) % 2 ^ 16 } else s,
            refl,
            ground arith,
          ))
          λ _.
            if-Ends OnScreen (c == 10)
              (λ _.
                if-Ends OnScreen (ltb s.lig 24)
                  (λ above. (record s { col = 0; lig = (s.lig + 1) % 2 ^ 16 }, refl, ground arith))
                  (λ _.
                    let (t, run, moved) = defilement-Ends s in
                    (record t { col = 0; lig = 24 }, rw run refl, (omega arith, omega arith))))
              λ _.
                if-Ends OnScreen (c == 12)
                  (λ _.
                    let (t, run, cleared) = efface_ecran-Ends s in
                    (record t { col = 0; lig = 0 }, rw run refl, (omega arith, omega arith)))
                  λ _.
                    if-Ends OnScreen (c == 13)
                      (λ _. (record s { col = 0 }, refl, (h.0, omega arith))) (λ _. (s, refl, h))

-- Whatever the character is, with the cursor on the screen `traite_car` never writes through the
-- null pointer, leaves the cursor on the screen, and tells the display its position.
pub traite_car-Ends :
    (c : ℕ) (s : Console) → OnScreen s → Ends (λ t. OnScreen t × Placed t) (traite_car c s)
unfolding traite_car
traite_car-Ends c s h =
    let (t, run, on) =
      if-Ends OnScreen (is_control c) (λ _. controle-Ends c s h) (λ _. imprime-Ends c s h) in
    (place_curseur t.lig t.col t, rw run refl, place_curseur-Placed t on)
