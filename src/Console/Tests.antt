-- ===== src/Console/Tests.antt =====
-- Examples for shared/console.c: a blank screen with the cursor in its last line.
use advanced_operating_syste.Base.{ℕ, ◌≡◌, refl, none, some, arith, Ends, for_up}
use advanced_operating_syste.Console.{Console, is_control, traite_car, console_putbytes}
use advanced_operating_syste.Console.Bounds.{OnScreen, Placed, traite_car-Ends}
use advanced_operating_syste.Console.Print.{TypedLast, traite_car-Typed}
use advanced_operating_syste.Console.Bytes.{console_putbytes-all, console_putbytes_forever}

abbrev last_line : Console
last_line = record { lig = 24; col = 79; screen = λ _. 544; cursor = (0, 0) }

-- "a" over and over.
abbrev text : ℕ → ℕ
text i = 97

last_line-OnScreen : OnScreen last_line
last_line-OnScreen = (omega arith, omega arith)

traite_car-Ends_example : Ends (λ t. OnScreen t × Placed t) (traite_car 97 last_line)
traite_car-Ends_example = traite_car-Ends 97 last_line last_line-OnScreen

console_putbytes-all_example :
    (t : Console) × (console_putbytes 4 text 3 last_line ≡ some (some t))
    × (for_up 3 (λ i. traite_car (text i)) last_line ≡ some t)
    × OnScreen t
console_putbytes-all_example =
    console_putbytes-all text 3 4 last_line (omega arith) (omega arith) last_line-OnScreen

console_putbytes_forever_example : console_putbytes 100000 text 65536 last_line ≡ none
console_putbytes_forever_example =
    console_putbytes_forever text 65536 100000 last_line (omega arith) last_line-OnScreen

traite_car-Typed_example : Ends (λ t. TypedLast last_line 97 t) (traite_car 97 last_line)
unfolding is_control
traite_car-Typed_example = traite_car-Typed 97 last_line last_line-OnScreen refl
