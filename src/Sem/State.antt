-- ===== src/Sem/State.antt =====
-- The types of sem.h and the functions of sem.c on the lists. A list linked by `next` is a list
-- here; a pointer to a semaphore is its position's contents, found and written again by `sid`.
use advanced_operating_syste.Base.{ℕ, Option, none, some, List, [], ◌∷◌, if◌then◌else◌, ◌>>=◌}
use advanced_operating_syste.Base.Int.{ℤ, negsuc, ◌==ℤ◌}
use advanced_operating_syste.Process.State.{Kernel}
use advanced_operating_syste.Process.Schedule.{passe_activable}

abbrev pub nbsems : ℕ
nbsems = 5

-- `val` is a `short`; `p_bloques` holds the pids of the linked list.
pub record Semaphore : Type 0 where
  pub sid : ℤ
  pub val : ℤ
  pub p_bloques : List ℤ

-- The globals of sem.c, and the kernel below them.
pub record System : Type 0 where
  pub kernel : Kernel
  pub nb_sem : ℕ
  pub sems : List Semaphore

-- `sem_courant`; `none` is NULL.
unfoldable pub sem_courant : ℤ → List Semaphore → Option Semaphore
sem_courant sem [] = none
sem_courant sem (c ∷ cs) = if c.sid ==ℤ sem then some c else sem_courant sem cs

-- A write through the pointer that `sem_courant` returned.
unfoldable pub write_courant : ℤ → Semaphore → List Semaphore → List Semaphore
write_courant sem new [] = []
write_courant sem new (c ∷ cs) = if c.sid ==ℤ sem then new ∷ cs else c ∷ write_courant sem new cs

-- `add_proc_bloque`: the first process gets a node that is kept in a local variable only; a further
-- one would be written through the NULL at the end of the list. `node` is what `mem_alloc` answers.
unfoldable pub add_proc_bloque : Option ℕ → Semaphore → ℤ → Option Semaphore
add_proc_bloque node cou pid = elim cou.p_bloques [ [] ↦ do _ ← node; some cou | _ ∷ _ ↦ none ]

-- `get_premier_proc_bloque`: the first pid, or -1.
unfoldable pub get_premier_proc_bloque : Semaphore → ℤ × Semaphore
get_premier_proc_bloque cou = elim cou.p_bloques [
  | [] ↦ (negsuc 0, cou)
  | pid ∷ rest ↦ (pid, record cou { p_bloques = rest })
]

-- The loop of `sdelete` and `sreset`, which wakes processes up to the first -1 or the end: what is
-- left of the list, and the kernel.
unfoldable pub wake_all : List ℤ → Kernel → List ℤ × Kernel
wake_all [] k = ([], k)
wake_all (pid ∷ rest) k =
    if pid ==ℤ negsuc 0 then (rest, k) else wake_all rest (passe_activable pid k)

-- One waiting process is woken if the value is still not positive.
unfoldable pub wake_one : Semaphore → Kernel → Semaphore × Kernel
wake_one cou k =
    let (pid, cou') = get_premier_proc_bloque cou in
    (cou', if pid ==ℤ negsuc 0 then k else passe_activable pid k)
