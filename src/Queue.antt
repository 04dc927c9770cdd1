-- ===== src/Queue.antt =====
-- shared/queue.h: circular doubly linked lists kept in increasing order of priority. The links of
-- all elements are one memory; an element is named by the address of its link, so `queue_entry`,
-- which subtracts the offset of the link in its structure, is the identity. Address 0 is NULL.
pub mod Segs
pub mod Insert
pub mod Remove
pub mod Walk
pub mod Fresh
pub mod Order
mod Tests
use advanced_operating_syste.Base.{
  ℕ, zero, suc, Bool, not, ◌&&◌, Option, none, some, List, [], ◌∷◌, ◌==◌, ltb, if◌then◌else◌, ◌>>=◌,
  ◌>>◌, assert,
}

pub record Links : Type 0 where
  pub prev : ℕ → ℕ
  pub next : ℕ → ℕ

abbrev write : (ℕ → ℕ) → ℕ → ℕ → ℕ → ℕ
write f a v b = if b == a then v else f b

-- p->prev = v and p->next = v.
abbrev set_prev : ℕ → ℕ → Links → Links
set_prev p v m = record m { prev = write m.prev p v }

abbrev set_next : ℕ → ℕ → Links → Links
set_next p v m = record m { next = write m.next p v }

-- INIT_LIST_HEAD, and INIT_LINK for an element that is in no list.
pub init_list_head : ℕ → Links → Links
init_list_head head m = set_prev head head (set_next head head m)

pub init_link : ℕ → Links → Links
init_link elem m = set_prev elem 0 (set_next elem 0 m)

pub queue_empty : ℕ → Links → Bool
queue_empty head m = m.next head == head

-- The loop of `queue_add`, from the current link on: it stops at the head, or at the first element
-- whose priority is not below `level`. `none` says that the fuel ran out.
scan : ℕ → (ℕ → ℕ) → ℕ → ℕ → ℕ → Links → Option ℕ
scan zero prio level head cur m = none
scan (suc fuel) prio level head cur m =
    let rest = scan fuel prio level head (m.next cur) m in
    if cur == head then some cur else if ltb (prio cur) level then rest else some cur

-- The four writes that put `elem` before the link `cur`.
splice : ℕ → ℕ → Links → Links
splice elem cur m =
    let m = set_next elem cur m in
    let m = set_prev elem (m.prev cur) m in
    let m = set_next (m.prev cur) elem m in set_prev cur elem m

pub queue_add : ℕ → (ℕ → ℕ) → ℕ → ℕ → Links → Option Links
queue_add fuel prio elem head m = do
  assert (m.prev elem == 0 && m.next elem == 0)
  cur ← scan fuel prio (prio elem) head (m.next head) m
  some (splice elem cur m)

-- The returned pointer is 0 when the list is empty.
pub queue_out : ℕ → Links → ℕ × Links
unfolding queue_empty
queue_out head m =
    if queue_empty head m
    then (0, m)
    else let ret = m.prev head in
      let m = set_prev head (m.prev (m.prev head)) m in
      let m = set_next (m.prev head) head m in let m = set_prev ret 0 m in (ret, set_next ret 0 m)

-- The four writes that take `elem` out.
unlink : ℕ → Links → Links
unlink elem m =
    let m = set_next (m.prev elem) (m.next elem) m in
    let m = set_prev (m.next elem) (m.prev elem) m in let m = set_next elem 0 m in set_prev elem 0 m

pub queue_del : ℕ → Links → Option Links
queue_del elem m = do
  assert (not (m.prev elem == 0) && not (m.next elem == 0))
  some (unlink elem m)

pub queue_top : ℕ → Links → ℕ
unfolding queue_empty
queue_top head m = if queue_empty head m then 0 else m.prev head

pub queue_bottom : ℕ → Links → ℕ
unfolding queue_empty
queue_bottom head m = if queue_empty head m then 0 else m.next head

-- The elements that `queue_for_each` visits, from the link `cur` on.
walk : ℕ → (ℕ → ℕ) → ℕ → ℕ → Option (List ℕ)
walk zero step head cur = none
walk (suc fuel) step head cur =
    let rest = walk fuel step head (step cur) in
    if cur == head then some [] else (rest >>= λ xs. some (cur ∷ xs))

pub queue_for_each : ℕ → ℕ → Links → Option (List ℕ)
unfolding walk
queue_for_each fuel head m = walk fuel m.next head (m.next head)

pub queue_for_each_prev : ℕ → ℕ → Links → Option (List ℕ)
unfolding walk
queue_for_each_prev fuel head m = walk fuel m.prev head (m.prev head)
