-- ===== src/Queue/Fresh.antt =====
-- shared/queue.h: a new list, and elements that come into it and leave it again.
use advanced_operating_syste.Base.{ℕ, ◌≡◌, ◌≢◌, refl, some, [], arith}
use advanced_operating_syste.Queue.{Links, init_list_head, init_link, queue_add, queue_out}
use advanced_operating_syste.Queue.Segs.{Ring}
use advanced_operating_syste.Queue.Insert.{insert, queue_add-Ring}
use advanced_operating_syste.Queue.Remove.{queue_out-Ring}

-- A new list is empty.
pub init_list_head-Ring : (m : Links) (head : ℕ) → head ≢ 0 → Ring (init_list_head head m) head []
unfolding init_list_head
init_list_head-Ring m head h = record {
  chain = (ground arith, ground arith);
  distinct = (refl, tt);
  non_null = ground arith;
}

-- The first element of a new list comes in, and `queue_out` takes it out again and leaves the list
-- empty, whatever its priority is.
pub queue_out-queue_add :
    (m : Links) (prio : ℕ → ℕ) (head elem : ℕ)
    → head ≢ 0
    → elem ≢ 0
    → elem ≢ head
    → (n : Links) × (queue_add 1 prio elem head (init_link elem (init_list_head head m)) ≡ some n)
      × ((queue_out head n).0 ≡ elem)
      × Ring (queue_out head n).1 head []
unfolding init_list_head init_link insert
queue_out-queue_add m prio head elem h e other =
    let empty = init_list_head-Ring m head h in
    let start : Ring (init_link elem (init_list_head head m)) head [] = record {
      chain = (ground arith, ground arith);
      distinct = (refl, tt);
      non_null = ground arith;
    } in
    let (n, run, ring, _) =
      queue_add-Ring 1 prio elem head (init_link elem (init_list_head head m)) [] start
        (ground arith) e (ground arith) (ground arith) (omega arith) in
    let out = queue_out-Ring n head elem [] ring in (n, run, out.0, out.1)
