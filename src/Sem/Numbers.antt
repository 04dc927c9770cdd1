-- ===== src/Sem/Numbers.antt =====
-- sem.c: how many semaphores have a number, and that no call but `screate` gives one out.
use advanced_operating_syste.Base.{
  ℕ, ◌+◌, ◌≤◌, ◌≡◌, refl, ◌∙◌, ap, Bool, true, false, ◌||◌, Option, none, some, List, [], ◌∷◌, ◌++◌,
  ◌⊎◌, inl, inr, arith, if◌then◌else◌, ◌>>=◌, Bool-cases, zero, suc, >>=-eq-some,
}
use advanced_operating_syste.Base.Int.{ℤ, pos, negsuc, pos_part, ◌+ℤ◌, ◌-ℤ◌, ltb_ℤ, leb_ℤ, ◌==ℤ◌}
use advanced_operating_syste.Process.State.{Kernel}
use advanced_operating_syste.Process.Schedule.{getpid, bloque_sur_semaphore}
use advanced_operating_syste.Process.Calls.{Reply}
use advanced_operating_syste.Sem.State.{
  Semaphore, System, sem_courant, write_courant, add_proc_bloque, get_premier_proc_bloque, wake_one,
}
use advanced_operating_syste.Sem.Calls.{
  is_bad, schedule, sdelete, increment, increments, signal, signaln, sreset, try_wait, wait,
  wait_blocked,
}
use advanced_operating_syste.Sem.Free.{done}

-- How many semaphores have the number.
unfoldable pub times : ℕ → List Semaphore → ℕ
times n [] = 0
times n (c ∷ cs) = times n cs + (if c.sid ==ℤ pos n then 1 else 0)

-- What a call may write in place of a semaphore: one of the same number, or of none.
abbrev Replaces : Semaphore → Semaphore → Type 0
Replaces c new = (new.sid ≡ c.sid) ⊎ (new.sid ≡ negsuc 0)

times-write_courant :
    (n : ℕ) (sem : ℤ) (c new : Semaphore) (cs : List Semaphore)
    → sem_courant sem cs ≡ some c
    → Replaces c new
    → times n (write_courant sem new cs) ≤ times n cs
unfolding sem_courant write_courant times
times-write_courant n sem c new [] found r = cc
times-write_courant n sem c new (d ∷ ds) found r = elim (Bool-cases (d.sid ==ℤ sem)) [
  | inl hit ↦
      let same : d.sid ≡ c.sid = ground arith in
      elim r [ inl kept ↦ ground arith | inr gone ↦ ground arith ]
  | inr miss ↦
      let ih = times-write_courant n sem c new ds (rw miss at found) r in ground (arith, ih)
]

-- Where the number goes, one semaphore fewer has it.
pub times-deleted :
    (n : ℕ) (c new : Semaphore) (cs : List Semaphore)
    → sem_courant (pos n) cs ≡ some c
    → new.sid ≡ negsuc 0
    → times n (write_courant (pos n) new cs) + 1 ≡ times n cs
unfolding sem_courant write_courant times
times-deleted n c new [] found e = cc
times-deleted n c new (d ∷ ds) found e = elim (Bool-cases (d.sid ==ℤ pos n)) [
  | inl hit ↦ ground arith
  | inr miss ↦ let ih = times-deleted n c new ds (rw miss at found) e in ground (arith, ih)
]

pub absent : (n : ℕ) (cs : List Semaphore) → times n cs ≡ 0 → sem_courant (pos n) cs ≡ none
unfolding sem_courant times
absent n [] e = refl
absent n (d ∷ ds) e = ground (arith, absent n ds)

pub times-append :
    (n : ℕ) (xs : List Semaphore) (c : Semaphore)
    → times n (xs ++ c ∷ []) ≡ times n xs + (if c.sid ==ℤ pos n then 1 else 0)
unfolding times
times-append n [] c = refl
times-append n (x ∷ xs) c = omega (arith, times-append n xs c)

-- Nothing but `screate` gives out a number.
abbrev pub Fewer : System → System → Type 0
Fewer s t = ((n : ℕ) → times n t.sems ≤ times n s.sems) × (t.nb_sem ≡ s.nb_sem)

schedule-same : (s t : System) (r : Reply) → schedule s ≡ some (t, r) → Fewer s t
unfolding schedule
schedule-same s t r e =
    let sems : t.sems ≡ s.sems = ground arith in
    (λ n. omega (arith, ap (times n) sems), ground arith)

increment-sid : (c : Semaphore) (k : Kernel) → (increment c k).0.sid ≡ c.sid
unfolding increment wake_one get_premier_proc_bloque
increment-sid c k = ground arith

increments-sid : (n : ℕ) (c : Semaphore) (k : Kernel) → (increments n c k).0.sid ≡ c.sid
unfolding increments
increments-sid zero c k = refl
increments-sid (suc n) c k =
    increments-sid n (increment c k).0 (increment c k).1 ∙ increment-sid c k

add_proc_bloque-sid :
    (memory : Option ℕ) (pid : ℤ) (c d : Semaphore)
    → add_proc_bloque memory c pid ≡ some d
    → d.sid ≡ c.sid
unfolding add_proc_bloque
add_proc_bloque-sid memory pid c d h = ground arith

-- The frame of the calls: a test of the arguments, a search, and a write of what was found.
module _ (s t : System) (r : Reply) (sem : ℤ) where
  abbrev Found : Semaphore → Type 0
  Found c = sem_courant sem s.sems ≡ some c

  search-Fewer :
      (bad : Bool) (v : Reply) (f : Semaphore → Option (System × Reply))
      → ((c : Semaphore) → Found c → f c ≡ some (t, r) → Fewer s t)
      → (if bad then some (s, v) else (sem_courant sem s.sems >>= f)) ≡ some (t, r)
      → Fewer s t
  search-Fewer true v f each e = ground arith
  search-Fewer false v f each e =
      let (c, found, run) = >>=-eq-some (sem_courant sem s.sems) f e in each c found run

  refused-Fewer : (v : Reply) → done s v ≡ some (t, r) → Fewer s t
  refused-Fewer v e = ground arith

  stored-Fewer :
      (k : Kernel) (c new : Semaphore) (v : Reply)
      → Found c
      → Replaces c new
      → done (record s { kernel = k; sems = write_courant sem new s.sems }) v ≡ some (t, r)
      → Fewer s t
  stored-Fewer k c new v found p e =
      let sems : t.sems ≡ write_courant sem new s.sems = ground arith in
      (
        λ n. omega (arith, ap (times n) sems, times-write_courant n sem c new s.sems found p),
        ground arith,
      )

  scheduled-Fewer :
      (k : Kernel) (c new : Semaphore)
      → Found c
      → Replaces c new
      → schedule (record s { kernel = k; sems = write_courant sem new s.sems }) ≡ some (t, r)
      → Fewer s t
  scheduled-Fewer k c new found p e =
      let (few, same) = schedule-same _ t r e in
      (λ n. omega (arith, few n, times-write_courant n sem c new s.sems found p), same)

  pub signal-Fewer : signal sem s ≡ some (t, r) → Fewer s t
  unfolding signal
  signal-Fewer = search-Fewer (is_bad sem) _ _ λ c f e.
      elim (Bool-cases (ltb_ℤ (pos 32767) (c.val +ℤ pos 1))) [
        | inl full ↦ refused-Fewer _ (rw full at e)
        | inr room ↦ scheduled-Fewer _ c _ f (inl (increment-sid c s.kernel)) (rw room at e)
      ]

  pub signaln-Fewer : (count : ℤ) → signaln sem count s ≡ some (t, r) → Fewer s t
  unfolding signaln
  signaln-Fewer count = search-Fewer (is_bad sem || ltb_ℤ count (pos 0)) _ _ λ c f e.
      elim (Bool-cases (ltb_ℤ (pos 32767) (c.val +ℤ count))) [
        | inl full ↦ refused-Fewer _ (rw full at e)
        | inr room ↦
            scheduled-Fewer _ c _ f (inl (increments-sid (pos_part count) c s.kernel))
              (rw room at e)
      ]

  pub sreset-Fewer : (count : ℤ) → sreset sem count s ≡ some (t, r) → Fewer s t
  unfolding sreset
  sreset-Fewer count =
      search-Fewer (is_bad sem || ltb_ℤ count (pos 0)) _ _
        λ c f e. stored-Fewer _ c _ _ f (inl refl) e

  pub sdelete-Fewer : sdelete sem s ≡ some (t, r) → Fewer s t
  unfolding sdelete
  sdelete-Fewer = search-Fewer (is_bad sem) _ _ λ c f e. stored-Fewer _ c _ _ f (inr refl) e

  pub try_wait-Fewer : try_wait sem s ≡ some (t, r) → Fewer s t
  unfolding try_wait
  try_wait-Fewer = search-Fewer (is_bad sem) _ _ λ c f e.
      elim (Bool-cases (leb_ℤ (c.val -ℤ pos 1) (pos 0))) [
        | inl low ↦ refused-Fewer _ (rw low at e)
        | inr more ↦ elim (Bool-cases (ltb_ℤ (c.val -ℤ pos 1) (negsuc 32767))) [
          | inl full ↦ refused-Fewer _ (rw (more, full) at e)
          | inr room ↦ elim (Bool-cases (ltb_ℤ (pos 0) c.val)) [
            | inl high ↦ stored-Fewer s.kernel c _ _ f (inl refl) (rw (more, room, high) at e)
            | inr none_left ↦ refused-Fewer _ (rw (more, room, none_left) at e)
          ]
        ]
      ]

  wait_blocked-Fewer :
      (memory : Option ℕ) (c d : Semaphore)
      → Found c
      → d.sid ≡ c.sid
      → wait_blocked sem memory d s ≡ some (t, r)
      → Fewer s t
  unfolding wait_blocked
  wait_blocked-Fewer memory c d f same e =
      let (p, _, e) = >>=-eq-some (getpid s.kernel) _ e in
      let (d', made, e) = >>=-eq-some (add_proc_bloque memory d p) _ e in
      let (k, _, e) = >>=-eq-some (bloque_sur_semaphore s.kernel) _ e in
      stored-Fewer k.0 c d' _ f (inl (add_proc_bloque-sid memory p d d' made ∙ same)) e

  pub wait-Fewer : (memory : Option ℕ) → wait sem memory s ≡ some (t, r) → Fewer s t
  unfolding wait
  wait-Fewer memory = search-Fewer (is_bad sem) _ _ λ c f e.
      elim (Bool-cases (ltb_ℤ (c.val -ℤ pos 1) (negsuc 32767))) [
        | inl full ↦ refused-Fewer _ (rw full at e)
        | inr room ↦ elim (Bool-cases (ltb_ℤ (c.val -ℤ pos 1) (pos 0))) [
          | inl blocks ↦ wait_blocked-Fewer memory c _ f refl (rw (room, blocks) at e)
          | inr goes_on ↦ stored-Fewer s.kernel c _ _ f (inl refl) (rw (room, goes_on) at e)
        ]
      ]
