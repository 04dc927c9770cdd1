-- ===== src/Console.antt =====
-- shared/console.c: the text screen at 0xB8000, its cursor, and the characters that control it. A
-- character is a byte; `char` is signed here, so a byte from 128 on is a negative character.
pub mod Cells
pub mod Bounds
pub mod Scroll
pub mod Bytes
pub mod Print
mod Tests
use advanced_operating_syste.Base.{
  ℕ, zero, suc, ◌+◌, ◌-◌, ◌*◌, ◌/◌, ◌%◌, ◌^◌, Bool, ◌&&◌, ◌||◌, Option, none, some, List, [], ◌∷◌,
  ◌==◌, ltb, leb, if◌then◌else◌, ◌>>=◌, for_up,
}

abbrev pub nb_lig : ℕ
nb_lig = 25

abbrev pub nb_col : ℕ
nb_col = 80

abbrev pub start_vid_addr : ℕ
start_vid_addr = 753664

-- `cl`, `bc` and `tc`, which nothing assigns, are 0, 0 and 2. `screen` has the 16-bit words by the
-- address of their first byte; `cursor` has the low and the high byte that the display received.
pub record Console : Type 0 where
  pub lig : ℕ
  pub col : ℕ
  pub screen : ℕ → ℕ
  pub cursor : ℕ × ℕ

-- `none` is NULL.
unfoldable pub ptr_mem : ℕ → ℕ → Option ℕ
ptr_mem lig col =
    if leb nb_lig lig || leb nb_col col
    then none
    else some (start_vid_addr + 2 * (lig * nb_col + col))

-- A character, which is not negative, in green on black: `c | (cl << 15) | (bc << 12) | (tc << 8)`.
unfoldable pub cell : ℕ → ℕ
cell c = c + 2 * 2 ^ 8

unfoldable pub ecrit_car : ℕ → ℕ → ℕ → Console → Option Console
ecrit_car lig col c s = do
  addr ← ptr_mem lig col
  some (record s { screen = λ a. if a == addr then cell c else s.screen a })

unfoldable pub efface_ecran : Console → Option Console
efface_ecran s = for_up nb_lig (λ l. for_up nb_col (λ c. ecrit_car l c 32)) s

unfoldable pub place_curseur : ℕ → ℕ → Console → Console
place_curseur lig col s =
    let pos = (col + lig * nb_col) % 2 ^ 16 in record s { cursor = (pos % 2 ^ 8, pos / 2 ^ 8) }

-- `memmove` of 24 lines from the second line to the first, and a blank last line.
unfoldable pub defilement : Console → Option Console
defilement s =
    let moved : Console = record s {
      screen = λ a.
          if leb start_vid_addr a && ltb a (start_vid_addr + 24 * nb_col * 2)
          then s.screen (a + nb_col * 2)
          else s.screen a;
    } in
    for_up nb_col (λ c. ecrit_car 24 c 32) moved

-- A new line below the last one.
unfoldable pub saut_de_ligne : Console → Option Console
saut_de_ligne s =
    let s = record s { col = 0; lig = (s.lig + 1) % 2 ^ 16 } in
    if leb nb_lig s.lig then (do s ← defilement s; some (record s { lig = 24 })) else some s

-- The characters below 32 (a negative one among them) and 127.
unfoldable pub controle : ℕ → Console → Option Console
controle c s =
    if c == 8
    then some (if ltb 0 s.col then record s { col = s.col - 1 } else s)
    else if c == 9
    then some (if leb s.col 72 then record s { col = (s.col + 4) % 2 ^ 16 } else s)
    else if c == 10
    then (if ltb s.lig 24
        then some (record s { col = 0; lig = (s.lig + 1) % 2 ^ 16 })
        else (do s ← defilement s; some (record s { col = 0; lig = 24 })))
    else if c == 12
    then (do s ← efface_ecran s; some (record s { col = 0; lig = 0 }))
    else if c == 13
    then some (record s { col = 0 })
    else some s

-- The branch for a printable character.
unfoldable pub imprime : ℕ → Console → Option Console
imprime c s = do
  s ← ecrit_car s.lig s.col c s
  let s = record s { col = (s.col + 1) % 2 ^ 16 }
  if leb nb_col s.col then saut_de_ligne s else some s

unfoldable pub is_control : ℕ → Bool
is_control c = ltb c 32 || (leb 128 c || (c == 127))

-- The branch for characters above 127 is never reached: these are negative, so below 32.
unfoldable pub traite_car : ℕ → Console → Option Console
traite_car c s = do
  s ← if is_control c then controle c s else imprime c s
  some (place_curseur s.lig s.col s)

-- The loop of `console_putbytes`, from `i` on, where `i` is a uint16_t. `none` in the outer option:
-- the fuel ran out.
unfoldable pub putbytes_from : ℕ → (ℕ → ℕ) → ℕ → ℕ → Console → Option (Option Console)
putbytes_from zero text len i s = none
putbytes_from (suc fuel) text len i s =
    if ltb i len
    then elim (traite_car (text i) s) [
      | none ↦ some none
      | some t ↦ putbytes_from fuel text len ((i + 1) % 2 ^ 16) t
    ]
    else some (some s)

unfoldable pub console_putbytes : ℕ → (ℕ → ℕ) → ℕ → Console → Option (Option Console)
console_putbytes fuel text len s = putbytes_from fuel text len 0 s
