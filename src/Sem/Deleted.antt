-- ===== src/Sem/Deleted.antt =====
-- sem.c: a number is given to one semaphore only, and is gone with it.
use advanced_operating_syste.Base.{ℕ, ◌≤◌, ◌<◌, ◌≡◌}
use advanced_operating_syste.Sem.State.{System}
use advanced_operating_syste.Sem.Reach.{Reach}
use advanced_operating_syste.Sem.Numbers.{times}

-- No number is given twice, and none from the counter on.
record Given (s : System) : Type 0 where
  once : (n : ℕ) → times n s.sems ≤ 1
  later : (n : ℕ) → s.nb_sem ≤ n → times n s.sems ≡ 0

-- What calls leave as it is.
record Since (s t : System) : Type 0 where
  counter : s.nb_sem ≤ t.nb_sem
  fewer : (n : ℕ) → n < s.nb_sem → times n t.sems ≤ times n s.sems
  given : Given s → Given t
