-- ===== src/Sem/Free.antt =====
-- sem.c: every call leaves the lists of waiting processes empty and the counters in range.
use advanced_operating_syste.Base.{
  ℕ, zero, suc, ◌+◌, ◌≡◌, refl, sym, ap, subst, Bool, true, false, ◌||◌, Option, none, some, List,
  [], ◌∷◌, inl, inr, arith, if◌then◌else◌, ◌>>=◌, >>=-eq-some, Bool-cases, ltb, All, All-append,
}
use advanced_operating_syste.Base.Int.{
  ℤ, pos, negsuc, pos_part, ◌+ℤ◌, ◌-ℤ◌, ltb_ℤ, leb_ℤ, ◌≤ℤ◌, ◌==ℤ◌, +ℤ_parts, -ℤ_parts, int_laws,
}
use advanced_operating_syste.Process.State.{Kernel}
use advanced_operating_syste.Process.Schedule.{getpid, bloque_sur_semaphore}
use advanced_operating_syste.Process.Calls.{Reply, returned}
use advanced_operating_syste.Sem.State.{
  nbsems, Semaphore, System, sem_courant, write_courant, add_proc_bloque, wake_all, wake_one,
  get_premier_proc_bloque,
}
use advanced_operating_syste.Sem.Calls.{
  is_bad, schedule, screate, sdelete, increment, increments, signal, signaln, sreset, try_wait,
  wait, wait_blocked,
}

-- A value in the range of `short`.
abbrev pub IsShort : ℤ → Type 0
IsShort v = (negsuc 32767 ≤ℤ v) × (v ≤ℤ pos 32767)

-- No process waits on the semaphore, and its counter has not overflowed.
abbrev pub IsFree : Semaphore → Type 0
IsFree c = (c.p_bloques ≡ []) × IsShort c.val

sem_courant-All {ℓ} :
    (P : Semaphore → Type ℓ) (sem : ℤ) (cs : List Semaphore) (c : Semaphore)
    → All P cs
    → sem_courant sem cs ≡ some c
    → P c
unfolding sem_courant
sem_courant-All P sem [] c h e = cc
sem_courant-All P sem (d ∷ cs) c h e = elim (Bool-cases (d.sid ==ℤ sem)) [
  | inl hit ↦ let same : d ≡ c = ground arith in subst P same h.0
  | inr miss ↦ sem_courant-All P sem cs c h.1 (rw miss at e)
]

write_courant-All {ℓ} :
    (P : Semaphore → Type ℓ) (sem : ℤ) (new : Semaphore) (cs : List Semaphore)
    → P new
    → All P cs
    → All P (write_courant sem new cs)
unfolding write_courant
write_courant-All P sem new [] n h = tt
write_courant-All P sem new (d ∷ cs) n h = elim (Bool-cases (d.sid ==ℤ sem)) [
  | inl hit ↦ rw hit (n, h.1)
  | inr miss ↦ rw miss (h.0, write_courant-All P sem new cs n h.1)
]

schedule-sems : (s t : System) (r : Reply) → schedule s ≡ some (t, r) → t.sems ≡ s.sems
unfolding schedule
schedule-sems s t r e = ground arith

increment-IsFree :
    (c : Semaphore) (k : Kernel) → IsFree c → c.val +ℤ pos 1 ≤ℤ pos 32767 → IsFree (increment c k).0
unfolding increment wake_one get_premier_proc_bloque
increment-IsFree c k f room = ground (arith, +ℤ_parts c.val (pos 1))

increment-val : (c : Semaphore) (k : Kernel) → (increment c k).0.val ≡ c.val +ℤ pos 1
unfolding increment wake_one get_premier_proc_bloque
increment-val c k = ground arith

increments-IsFree :
    (n : ℕ) (c : Semaphore) (k : Kernel)
    → IsFree c
    → c.val +ℤ pos n ≤ℤ pos 32767
    → IsFree (increments n c k).0
unfolding increments
increments-IsFree zero c k f room = f
increments-IsFree (suc n) c k f room =
    increments-IsFree n (increment c k).0 (increment c k).1
      (increment-IsFree c k f (omega int_laws))
      (subst (λ v. v +ℤ pos n ≤ℤ pos 32767) (sym (increment-val c k)) (omega int_laws))

wake_all-nil : (c : Semaphore) (k : Kernel) → c.p_bloques ≡ [] → (wake_all c.p_bloques k).0 ≡ []
unfolding wake_all
wake_all-nil c k e = rw e refl

abbrev pub AllFree : System → Type 0
AllFree s = All IsFree s.sems

add_proc_bloque_same :
    (memory : Option ℕ) (pid : ℤ) (c d : Semaphore)
    → c.p_bloques ≡ []
    → add_proc_bloque memory c pid ≡ some d
    → d ≡ c
unfolding add_proc_bloque
add_proc_bloque_same memory pid c d e h = ground arith

abbrev pub done : System → Reply → Option (System × Reply)
done s v = some (s, v)

-- The frame of the calls: a test of the arguments, and a search for the semaphore.
module _ (s t : System) (r : Reply) (sem : ℤ) (h : AllFree s) where
  search-AllFree :
      (bad : Bool) (v : Reply) (f : Semaphore → Option (System × Reply))
      → (bad ≡ false → (c : Semaphore) → IsFree c → f c ≡ some (t, r) → AllFree t)
      → (if bad then some (s, v) else (sem_courant sem s.sems >>= f)) ≡ some (t, r)
      → AllFree t
  search-AllFree true v f each e = let same : s ≡ t = ground arith in subst AllFree same h
  search-AllFree false v f each e =
      let (c, found, run) = >>=-eq-some (sem_courant sem s.sems) f e in
      each refl c (sem_courant-All IsFree sem s.sems c h found) run

  refused-AllFree : (v : Reply) → done s v ≡ some (t, r) → AllFree t
  refused-AllFree v e = let same : s ≡ t = ground arith in subst AllFree same h

  stored-AllFree :
      (k : Kernel) (c : Semaphore) (v : Reply)
      → IsFree c
      → done (record s { kernel = k; sems = write_courant sem c s.sems }) v ≡ some (t, r)
      → AllFree t
  stored-AllFree k c v f e =
      let same : write_courant sem c s.sems ≡ t.sems = ground arith in
      subst (All IsFree) same (write_courant-All IsFree sem c s.sems f h)

  scheduled-AllFree :
      (k : Kernel) (c : Semaphore)
      → IsFree c
      → schedule (record s { kernel = k; sems = write_courant sem c s.sems }) ≡ some (t, r)
      → AllFree t
  scheduled-AllFree k c f e =
      subst (All IsFree) (sym (schedule-sems _ t r e)) (write_courant-All IsFree sem c s.sems f h)

  pub signal-AllFree : signal sem s ≡ some (t, r) → AllFree t
  unfolding signal
  signal-AllFree = search-AllFree (is_bad sem) _ _ λ good c f e.
      elim (Bool-cases (ltb_ℤ (pos 32767) (c.val +ℤ pos 1))) [
        | inl full ↦ refused-AllFree _ (rw full at e)
        | inr room ↦
            scheduled-AllFree _ _ (increment-IsFree c s.kernel f (ground arith)) (rw room at e)
      ]

  pub signaln-AllFree : (count : ℤ) → signaln sem count s ≡ some (t, r) → AllFree t
  unfolding signaln
  signaln-AllFree count = search-AllFree (is_bad sem || ltb_ℤ count (pos 0)) _ _ λ good c f e.
      elim (Bool-cases (ltb_ℤ (pos 32767) (c.val +ℤ count))) [
        | inl full ↦ refused-AllFree _ (rw full at e)
        | inr room ↦
            let positive : ltb_ℤ count (pos 0) ≡ false = ground arith in
            let whole : pos (pos_part count) ≡ count = ground arith in
            let fits : c.val +ℤ count ≤ℤ pos 32767 = ground arith in
            scheduled-AllFree _ _
              (increments-IsFree (pos_part count) c s.kernel f
                (subst (λ v. c.val +ℤ v ≤ℤ pos 32767) (sym whole) fits))
              (rw room at e)
      ]

  pub sreset-AllFree : (count : ℤ) → IsShort count → sreset sem count s ≡ some (t, r) → AllFree t
  unfolding sreset
  sreset-AllFree count short =
      search-AllFree (is_bad sem || ltb_ℤ count (pos 0)) _ _
        λ good c f e. stored-AllFree _ _ _ (wake_all-nil c s.kernel f.0, short) e

  pub sdelete-AllFree : sdelete sem s ≡ some (t, r) → AllFree t
  unfolding sdelete
  sdelete-AllFree =
      search-AllFree (is_bad sem) _ _
        λ good c f e. stored-AllFree _ _ _ (wake_all-nil c s.kernel f.0, f.1) e

  pub try_wait-AllFree : try_wait sem s ≡ some (t, r) → AllFree t
  unfolding try_wait
  try_wait-AllFree = search-AllFree (is_bad sem) _ _ λ good c f e.
      elim (Bool-cases (leb_ℤ (c.val -ℤ pos 1) (pos 0))) [
        | inl low ↦ refused-AllFree _ (rw low at e)
        | inr more ↦ elim (Bool-cases (ltb_ℤ (c.val -ℤ pos 1) (negsuc 32767))) [
          | inl full ↦ refused-AllFree _ (rw (more, full) at e)
          | inr room ↦ elim (Bool-cases (ltb_ℤ (pos 0) c.val)) [
            | inl high ↦
                stored-AllFree s.kernel _ _ (f.0, ground (arith, -ℤ_parts c.val (pos 1)))
                  (rw (more, room, high) at e)
            | inr none_left ↦ refused-AllFree _ (rw (more, room, none_left) at e)
          ]
        ]
      ]

  wait_blocked-AllFree :
      (memory : Option ℕ) (c : Semaphore)
      → IsFree c
      → wait_blocked sem memory c s ≡ some (t, r)
      → AllFree t
  unfolding wait_blocked
  wait_blocked-AllFree memory c f e =
      let (p, _, e) = >>=-eq-some (getpid s.kernel) _ e in
      let (c', made, e) = >>=-eq-some (add_proc_bloque memory c p) _ e in
      let (k, _, e) = >>=-eq-some (bloque_sur_semaphore s.kernel) _ e in
      stored-AllFree k.0 c' _ (subst IsFree (sym (add_proc_bloque_same memory p c c' f.0 made)) f) e

  pub wait-AllFree : (memory : Option ℕ) → wait sem memory s ≡ some (t, r) → AllFree t
  unfolding wait
  wait-AllFree memory = search-AllFree (is_bad sem) _ _ λ good c f e.
      elim (Bool-cases (ltb_ℤ (c.val -ℤ pos 1) (negsuc 32767))) [
        | inl full ↦ refused-AllFree _ (rw full at e)
        | inr room ↦
            let lower : IsFree (record c { val = c.val -ℤ pos 1 }) =
              (f.0, ground (arith, -ℤ_parts c.val (pos 1))) in
            elim (Bool-cases (ltb_ℤ (c.val -ℤ pos 1) (pos 0))) [
              | inl blocks ↦ wait_blocked-AllFree memory _ lower (rw (room, blocks) at e)
              | inr goes_on ↦ stored-AllFree s.kernel _ _ lower (rw (room, goes_on) at e)
            ]
      ]

abbrev pub fst_or : System → Option (System × Reply) → System
fst_or d none = d
fst_or d (some (s, r)) = s

pub screate-AllFree :
    (s t : System) (r : Reply) (count : ℤ) (memory : Option ℕ)
    → AllFree s
    → IsShort count
    → screate count memory s ≡ some (t, r)
    → AllFree t
unfolding screate
screate-AllFree s t r count memory h short e =
    elim (Bool-cases (ltb nbsems (s.nb_sem + 1) || ltb_ℤ count (pos 0))) [
      | inl refused ↦
          let same : some (record s { nb_sem = s.nb_sem + 1 }, returned (negsuc 0)) ≡ some (t, r) =
            rw refused at e in
          subst AllFree (ap (λ o. fst_or s o) same) h
      | inr fine ↦
          let (node, _, made) = >>=-eq-some memory _ (rw fine at e) in
          subst AllFree (ap (λ o. fst_or s o) made)
            (All-append IsFree s.sems _ h ((refl, short), tt))
    ]
