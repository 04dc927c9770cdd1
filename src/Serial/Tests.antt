-- ===== src/Serial/Tests.antt =====
-- Examples for kernel/serial.c.
use advanced_operating_syste.Base.{
  ℕ, ◌≡◌, refl, Option, none, some, List, [], ◌∷◌, ◌++◌, false, Ends,
}
use advanced_operating_syste.Serial.{Line, setup, calls}
use advanced_operating_syste.Serial.Transfer.{
  written, reads, Serves, idle, sends, receives, calls-Serves,
}

-- A device that is busy once before each call: an error, and a full transmitter.
abbrev line : Line
line = record { done = false; statuses = 3 ∷ 97 ∷ 64 ∷ 96 ∷ []; received = 65 ∷ 66 ∷ []; sent = [] }

abbrev asked : List (Option ℕ)
asked = some 43 ∷ []

served : Serves (none ∷ asked) (3 ∷ 97 ∷ 64 ∷ 96 ∷ []) (65 ∷ 66 ∷ [])
served =
    receives 65 (3 ∷ []) 97 (refl, tt) refl
      (sends 43 (64 ∷ []) 96 (refl, tt) refl (idle {statuses = []} {received = 66 ∷ []}))

calls-Serves_example :
    Ends (λ r. (r.1 ≡ 65 ∷ []) × (r.0.sent ≡ setup ++ (43, 1016) ∷ [])) (calls (none ∷ asked) line)
unfolding written reads
calls-Serves_example = calls-Serves none asked line refl served
