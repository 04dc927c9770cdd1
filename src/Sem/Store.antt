-- ===== src/Sem/Store.antt =====
-- sem.c: reading a semaphore after it was written, and calls that give back what was put in.
use advanced_operating_syste.Base.{
  ℕ, ◌+◌, ◌<◌, ◌≡◌, refl, ◌∙◌, sym, ap, true, false, some, List, [], ◌∷◌, ◌++◌, inl, inr, arith,
  ◌>>=◌, ltb, ==-refl, Bool-cases, All, All-append, All-map,
}
use advanced_operating_syste.Base.Int.{ℤ, pos, ◌-ℤ◌, ltb_ℤ, ◌≤ℤ◌, ◌==ℤ◌, -ℤ_parts, eq_of_parts}
use advanced_operating_syste.Process.Calls.{returned}
use advanced_operating_syste.Sem.State.{
  nbsems, Semaphore, System, sem_courant, write_courant, wake_all,
}
use advanced_operating_syste.Sem.Calls.{is_bad, scount, screate, sreset}

-- What the search finds has the number that was searched for.
pub sem_courant-sid :
    (sem : ℤ) (cs : List Semaphore) (c : Semaphore)
    → sem_courant sem cs ≡ some c
    → (c.sid ==ℤ sem) ≡ true
unfolding sem_courant
sem_courant-sid sem [] c e = cc
sem_courant-sid sem (d ∷ cs) c e = elim (Bool-cases (d.sid ==ℤ sem)) [
  | inl hit ↦ let same : d ≡ c = ground arith in ap (λ c. c.sid ==ℤ sem) (sym same) ∙ hit
  | inr miss ↦ sem_courant-sid sem cs c (rw miss at e)
]

pub sem_courant-write_courant :
    (sem : ℤ) (cs : List Semaphore) (c new : Semaphore)
    → sem_courant sem cs ≡ some c
    → (new.sid ==ℤ sem) ≡ true
    → sem_courant sem (write_courant sem new cs) ≡ some new
unfolding sem_courant write_courant
sem_courant-write_courant sem [] c new e same = cc
sem_courant-write_courant sem (d ∷ cs) c new e same = elim (Bool-cases (d.sid ==ℤ sem)) [
  | inl hit ↦ rw (hit, sem_courant, same) refl
  | inr miss ↦
      rw (miss, sem_courant, miss) (sem_courant-write_courant sem cs c new (rw miss at e) same)
]

-- A semaphore that is found is counted.
scount_found :
    (sem : ℤ) (s : System) (c : Semaphore) (cs : List Semaphore)
    → s.sems ≡ cs
    → ltb_ℤ sem (pos 0) ≡ false
    → sem_courant sem cs ≡ some c
    → scount sem s ≡ some c.val
unfolding scount sem_courant
scount_found sem s c [] same good e = cc
scount_found sem s c (d ∷ ds) same good e =
    rw (same, scount, good) (ap (λ o. o >>= λ c. some c.val) e)

module _ (s : System) (sem : ℤ) (c : Semaphore) (found : sem_courant sem s.sems ≡ some c) where
  -- `sreset` of a semaphore that there is succeeds, and `scount` then gives the new value.
  pub sreset-scount :
      (count : ℤ)
      → is_bad sem ≡ false
      → ltb_ℤ count (pos 0) ≡ false
      → (t : System) × (sreset sem count s ≡ some (t, returned (pos 0)))
        × (scount sem t ≡ some count)
  unfolding sreset
  sreset-scount count good positive =
      let woken = wake_all c.p_bloques s.kernel in
      let new : Semaphore = record c { val = count; p_bloques = woken.0 } in
      let t : System = record s { kernel = woken.1; sems = write_courant sem new s.sems } in
      (
        t,
        rw (good, positive, found) refl,
        scount_found sem t new t.sems refl (ground arith)
            (sem_courant-write_courant sem s.sems c new found (sem_courant-sid sem s.sems c found)),
      )

-- The numbers that the semaphores have are below `nb_sem`.
abbrev pub Numbered : System → Type 0
Numbered s = All (λ c. c.sid ≤ℤ (pos s.nb_sem -ℤ pos 1)) s.sems

sem_courant_new :
    (n : ℕ) (cs : List Semaphore) (new : Semaphore)
    → All (λ c. c.sid ≤ℤ (pos n -ℤ pos 1)) cs
    → new.sid ≡ pos n
    → sem_courant (pos n) (cs ++ new ∷ []) ≡ some new
unfolding sem_courant
sem_courant_new n [] new h e = rw e (rw (==-refl n) refl)
sem_courant_new n (d ∷ cs) new h e =
    let low = h.0 in
    let parts = -ℤ_parts (pos n) (pos 1) in
    let miss : (d.sid ==ℤ pos n) ≡ false = ground arith in
    rw (miss, sem_courant) (sem_courant_new n cs new h.1 e)

-- `screate` gives out the numbers 0 to 4 in turn. With memory for it and a value that is not
-- negative it adds a semaphore under the next number, and `scount` of it gives the value.
pub screate-scount :
    (s : System) (count : ℤ) (memory : ℕ)
    → Numbered s
    → s.nb_sem < nbsems
    → ltb_ℤ count (pos 0) ≡ false
    → (t : System) × (screate count (some memory) s ≡ some (t, returned (pos s.nb_sem)))
      × (t.nb_sem ≡ s.nb_sem + 1)
      × Numbered t
      × (scount (pos s.nb_sem) t ≡ some count)
unfolding screate
screate-scount s count memory h room positive =
    let n = s.nb_sem in
    let sid = pos (n + 1) -ℤ pos 1 in
    let number : sid ≡ pos n =
      eq_of_parts sid (pos n) (omega (arith, -ℤ_parts (pos (n + 1)) (pos 1))) in
    let new : Semaphore = record { sid = sid; val = count; p_bloques = [] } in
    let t : System = record s { nb_sem = n + 1; sems = s.sems ++ new ∷ [] } in
    let fine : ltb nbsems (n + 1) ≡ false = ground arith in
    (
      t,
      rw (fine, positive) (ap (λ v. some (t, returned v)) number),
      refl,
      All-append (λ c. c.sid ≤ℤ sid) s.sems (new ∷ [])
          (All-map _ (λ c. c.sid ≤ℤ sid) s.sems
            (λ c low. omega (arith, low, -ℤ_parts (pos (n + 1)) (pos 1), -ℤ_parts (pos n) (pos 1)))
            h)
          (omega arith, tt),
      scount_found (pos n) t new t.sems refl (ground arith) (sem_courant_new n s.sems new h number),
    )
