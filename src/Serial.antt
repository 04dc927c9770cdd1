-- ===== src/Serial.antt =====
-- kernel/serial.c: the first serial line, read and written byte by byte. The device is what it
-- answers: the values of its status register in the order of the reads, and the bytes that it has
-- received.
pub mod Transfer
mod Tests
use advanced_operating_syste.Base.{
  ℕ, ◌+◌, ◌%◌, ◌/◌, ◌^◌, Bool, true, false, ◌||◌, not, Option, none, some, List, [], ◌∷◌, ◌++◌,
  ◌==◌, if◌then◌else◌, ◌>>=◌,
}

abbrev pub com1 : ℕ
com1 = 1016

pub record Line : Type 0 where
  pub done : Bool
  pub statuses : List ℕ
  pub received : List ℕ
  -- The bytes sent to ports, in their order.
  pub sent : List (ℕ × ℕ)

-- What `init_serial` sends.
abbrev pub setup : List (ℕ × ℕ)
setup =
    (15, com1 + 4)
    ∷ (0, com1 + 1)
    ∷ (131, com1 + 3)
    ∷ (1, com1)
    ∷ (0, com1 + 1)
    ∷ (3, com1 + 3)
    ∷ []

unfoldable pub init_serial : Line → Line
init_serial s = if s.done then s else record s { done = true; sent = s.sent ++ setup }

-- The transmitter is empty; a byte is there, without an error or a break.
abbrev pub can_send : ℕ → Bool
can_send status = status / 2 ^ 5 % 2 == 1

abbrev pub can_receive : ℕ → Bool
can_receive status = not (not (status / 2 % 2 ^ 4 == 0) || (status % 2 == 0))

-- A loop that reads the status until a test holds. `none`: it still waits.
unfoldable pub await : (ℕ → Bool) → List ℕ → Option (List ℕ)
await test [] = none
await test (status ∷ later) =
    let rest = await test later in if test status then some later else rest

unfoldable pub write_com1 : ℕ → Line → Option Line
write_com1 c s = do
  let s = init_serial s
  later ← await can_send s.statuses
  some (record s { statuses = later; sent = s.sent ++ (c % 2 ^ 8, com1) ∷ [] })

-- A read of the data register takes the oldest byte; `none` here: it holds no new one.
abbrev pub take_byte : Line → Option (ℕ × Line)
take_byte s = elim s.received [ [] ↦ none | c ∷ cs ↦ some (c, record s { received = cs }) ]

unfoldable pub read_com1 : Line → Option (ℕ × Line)
read_com1 s = do
  let s = init_serial s
  later ← await can_receive s.statuses
  take_byte (record s { statuses = later })

-- Calls one after the other: a byte to write, or `none` for a read; with the bytes read.
unfoldable pub calls : List (Option ℕ) → Line → Option (Line × List ℕ)
calls [] s = some (s, [])
calls (some c ∷ rest) s = write_com1 c s >>= calls rest
calls (none ∷ rest) s = do (c, s) ← read_com1 s; (s, cs) ← calls rest s; some (s, c ∷ cs)
