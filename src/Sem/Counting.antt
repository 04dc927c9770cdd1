-- ===== src/Sem/Counting.antt =====
-- sem.c: what the calls do to the counter of a semaphore that there is, and to one that there is
-- not.
use advanced_operating_syste.Base.{
  ℕ, zero, suc, ◌≡◌, refl, ◌∙◌, sym, ap, true, false, Option, none, some, [], inl, inr, arith,
  if◌then◌else◌, Bool-cases,
}
use advanced_operating_syste.Base.Int.{
  ℤ, pos, negsuc, ◌+ℤ◌, ◌-ℤ◌, ltb_ℤ, leb_ℤ, ◌==ℤ◌, -ℤ_parts, eq_of_parts, int_laws,
}
use advanced_operating_syste.Process.State.{Kernel}
use advanced_operating_syste.Process.Calls.{returned}
use advanced_operating_syste.Sem.State.{
  Semaphore, System, sem_courant, write_courant, wake_one, get_premier_proc_bloque,
}
use advanced_operating_syste.Sem.Calls.{
  is_bad, schedule, sreset, sdelete, increment, increments, signal, signaln, try_wait, wait,
  wait_blocked, wait_end,
}
use advanced_operating_syste.Sem.Free.{IsFree}

increment_free :
    (c : Semaphore) (k : Kernel)
    → c.p_bloques ≡ []
    → increment c k ≡ (record c { val = c.val +ℤ pos 1 }, k)
unfolding increment wake_one get_premier_proc_bloque
increment_free c k e = ground arith

increments_free :
    (n : ℕ) (c : Semaphore) (k : Kernel)
    → c.p_bloques ≡ []
    → increments n c k ≡ (record c { val = c.val +ℤ pos n }, k)
unfolding increments
increments_free zero c k e =
    ap (λ v. (record c { val = v }, k)) (eq_of_parts c.val (c.val +ℤ pos 0) (omega int_laws))
increments_free (suc n) c k e =
    let next : Semaphore = record c { val = c.val +ℤ pos 1 } in
    ap (λ r. increments n r.0 r.1) (increment_free c k e)
    ∙ increments_free n next k e
    ∙ ap (λ v. (record c { val = v }, k))
        (eq_of_parts ((c.val +ℤ pos 1) +ℤ pos n) (c.val +ℤ pos (suc n)) (omega int_laws))

module _ (s : System) (sem : ℤ) (c : Semaphore) (good : is_bad sem ≡ false)
    (found : sem_courant sem s.sems ≡ some c) (f : IsFree c) where
  abbrev holding : ℤ → System
  holding v = record s { sems = write_courant sem (record c { val = v }) s.sems }

  -- On a semaphore that there is, with no process in its list, `signaln` of a count that the
  -- counter has room for adds the count, whatever the value was, wakes no process, and runs the
  -- scheduler once; otherwise it returns -2 and changes nothing.
  pub signaln_adds :
      (count : ℕ)
      → signaln sem (pos count) s ≡ (
          if leb_ℤ (c.val +ℤ pos count) (pos 32767)
          then schedule (holding (c.val +ℤ pos count))
          else some (s, returned (negsuc 1)))
  unfolding signaln
  signaln_adds count =
      let positive : ltb_ℤ (pos count) (pos 0) ≡ false = ground arith in
      elim (Bool-cases (ltb_ℤ (pos 32767) (c.val +ℤ pos count))) [
        | inl full ↦
            let no : leb_ℤ (c.val +ℤ pos count) (pos 32767) ≡ false = ground arith in
            rw (good, positive, found, full, no) refl
        | inr room ↦
            let yes : leb_ℤ (c.val +ℤ pos count) (pos 32767) ≡ true = ground arith in
            rw (good, positive, found, room, yes, increments_free count c s.kernel f.0) refl
      ]

  signal_adds : signal sem s ≡ (
      if leb_ℤ (c.val +ℤ pos 1) (pos 32767)
      then schedule (holding (c.val +ℤ pos 1))
      else some (s, returned (negsuc 1)))
  unfolding signal
  signal_adds = elim (Bool-cases (ltb_ℤ (pos 32767) (c.val +ℤ pos 1))) [
    | inl full ↦
        let no : leb_ℤ (c.val +ℤ pos 1) (pos 32767) ≡ false = ground arith in
        rw (good, found, full, no) refl
    | inr room ↦
        let yes : leb_ℤ (c.val +ℤ pos 1) (pos 32767) ≡ true = ground arith in
        rw (good, found, room, yes, increment_free c s.kernel f.0) refl
  ]

  -- A `signal` is a `signaln` of one.
  pub signal-signaln : signal sem s ≡ signaln sem (pos 1) s
  signal-signaln = signal_adds ∙ sym (signaln_adds 1)

  -- On such a semaphore `try_wait` takes one from a value of two or more, and returns 0. At one, at
  -- which a unit could be taken, it returns -3 as it does below, and changes nothing.
  pub try_wait_takes : try_wait sem s ≡ (
      if leb_ℤ (pos 2) c.val
      then some (holding (c.val -ℤ pos 1), returned (pos 0))
      else some (s, returned (negsuc 2)))
  unfolding try_wait
  try_wait_takes =
      let parts = -ℤ_parts c.val (pos 1) in
      elim (Bool-cases (leb_ℤ (pos 2) c.val)) [
        | inl more ↦
            let low : leb_ℤ (c.val -ℤ pos 1) (pos 0) ≡ false = ground arith in
            let room : ltb_ℤ (c.val -ℤ pos 1) (negsuc 32767) ≡ false = ground arith in
            let high : ltb_ℤ (pos 0) c.val ≡ true = ground arith in
            rw (good, found, low, room, high, more) refl
        | inr less ↦
            let low : leb_ℤ (c.val -ℤ pos 1) (pos 0) ≡ true = ground arith in
            rw (good, found, low, less) refl
      ]

  -- On such a semaphore `wait` returns -2 when the counter is at its least value. Otherwise it
  -- takes one from the counter; at a positive value it returns 0 at once, and else the caller
  -- blocks.
  pub wait_takes :
      (memory : Option ℕ)
      → (c.sid ==ℤ negsuc 0) ≡ false
      → wait sem memory s ≡ (
          if leb_ℤ (pos 1) c.val
          then some (holding (c.val -ℤ pos 1), returned (pos 0))
          else if ltb_ℤ (negsuc 32767) c.val
          then wait_blocked sem memory (record c { val = c.val -ℤ pos 1 }) s
          else some (s, returned (negsuc 1)))
  unfolding wait wait_end
  wait_takes memory there =
      let parts = -ℤ_parts c.val (pos 1) in
      elim (Bool-cases (leb_ℤ (pos 1) c.val)) [
        | inl more ↦
            let room : ltb_ℤ (c.val -ℤ pos 1) (negsuc 32767) ≡ false = ground arith in
            let goes_on : ltb_ℤ (c.val -ℤ pos 1) (pos 0) ≡ false = ground arith in
            rw (good, found, room, goes_on, there, more) refl
        | inr less ↦
            let blocks : ltb_ℤ (c.val -ℤ pos 1) (pos 0) ≡ true = ground arith in
            elim (Bool-cases (ltb_ℤ (negsuc 32767) c.val)) [
              | inl above ↦
                  let room : ltb_ℤ (c.val -ℤ pos 1) (negsuc 32767) ≡ false = ground arith in
                  rw (good, found, room, blocks, less, above) refl
              | inr least ↦
                  let full : ltb_ℤ (c.val -ℤ pos 1) (negsuc 32767) ≡ true = ground arith in
                  rw (good, found, full, less, least) refl
            ]
      ]

-- A number from 0 to 4 that no semaphore has is not refused: every call that takes it, with a count
-- that is not negative, goes through the null pointer.
pub absent_faults :
    (s : System) (sem count : ℤ) (memory : Option ℕ)
    → is_bad sem ≡ false
    → ltb_ℤ count (pos 0) ≡ false
    → sem_courant sem s.sems ≡ none
    → (sdelete sem s ≡ none)
      × (signal sem s ≡ none)
      × (signaln sem count s ≡ none)
      × (sreset sem count s ≡ none)
      × (try_wait sem s ≡ none)
      × (wait sem memory s ≡ none)
unfolding sdelete signal signaln sreset try_wait wait
absent_faults s sem count memory good positive missing = (
  rw (good, missing) refl,
  rw (good, missing) refl,
  rw (good, positive, missing) refl,
  rw (good, positive, missing) refl,
  rw (good, missing) refl,
  rw (good, missing) refl,
)
