-- ===== src/Queue/Remove.antt =====
-- `queue_del`, `queue_out` and the traversals against operations on a list.
use mathlib.Core.List.{append-nil}
use advanced_operating_syste.Base.{
  ℕ, ◌≡◌, refl, sym, ◌∙◌, false, ◌≢◌, inl, inr, some, List, [], ◌∷◌, ◌++◌, arith, ◌==◌, ◌∉◌, has,
  Distinct, last_or, front, front-append-last, has-append, if◌then◌else◌, Bool-cases, ==-ne,
  ==-refl, Distinct-append, Distinct-remove,
}
use advanced_operating_syste.Queue.{Links, unlink, queue_del, queue_out, queue_top, queue_bottom}
use advanced_operating_syste.Queue.Segs.{
  Seg, Ring, first_or, last-mem, first-mem, Seg-first, Seg-last, Seg-split, Seg-append,
  Seg-retarget_end, Seg-retarget_start,
}

module _ (m : Links) (elem : ℕ) (other : m.prev elem ≢ elem) where
  unlink-next :
      (q : ℕ)
      → (unlink elem m).next q
        ≡ (if q == elem then 0 else if q == m.prev elem then m.next elem else m.next q)
  unfolding unlink
  unlink-next q = refl

  unlink-prev :
      (q : ℕ)
      → (unlink elem m).prev q
        ≡ (if q == elem then 0 else if q == m.next elem then m.prev elem else m.prev q)
  unfolding unlink
  unlink-prev q = rw (==-ne elem (m.prev elem) (λ e. other (sym e))) refl

-- The four writes join the runs on both sides of `elem`.
module _ (m : Links) (head elem : ℕ) (ys zs : List ℕ) (r : Ring m head (ys ++ elem ∷ zs)) where
  prev-elem : m.prev elem ≡ last_or head ys
  prev-elem = (Seg-split m head head ys (elem ∷ zs) r.chain).1.1

  next-elem : m.next elem ≡ first_or head zs
  next-elem = Seg-first m elem head zs (Seg-split m head head ys (elem ∷ zs) r.chain).1.2

  remaining : Distinct (head ∷ ys ++ zs) × (elem ∉ (head ∷ ys ++ zs))
  remaining = Distinct-remove elem (head ∷ ys) zs r.distinct

  out_front : elem ∉ (head ∷ ys)
  out_front = ground (arith, remaining.1, has-append elem (head ∷ ys) zs)

  out_back : elem ∉ (head ∷ zs)
  out_back = ground (arith, remaining.1, has-append elem (head ∷ ys) zs)

  prev_other : m.prev elem ≢ elem
  prev_other e = ground (arith, prev-elem, last-mem head ys, out_front)

  apart_front : Distinct (head ∷ ys)
  apart_front = (Distinct-append (head ∷ ys) zs remaining.0).0

  apart_back : Distinct (head ∷ zs)
  apart_back =
      let (dy, dz, apart) = Distinct-append (head ∷ ys) zs remaining.0 in
      (apart head (ground arith), dz)

  last_not_back : last_or head ys ∉ zs
  last_not_back =
      (Distinct-append (head ∷ ys) zs remaining.0).2 (last_or head ys) (last-mem head ys)

  first_not_front : first_or head zs ∉ ys
  first_not_front = elim (Bool-cases (has (first_or head zs) ys)) [
    | inl i ↦ ground (
      arith,
      first-mem head zs,
      (Distinct-append (head ∷ ys) zs remaining.0).2 (first_or head zs) (ground arith),
      apart_front.0,
    )
    | inr o ↦ o
  ]

  next_after :
      (q : ℕ)
      → (unlink elem m).next q
        ≡ (if q == elem then 0 else if q == last_or head ys then first_or head zs else m.next q)
  next_after q = unlink-next m elem prev_other q ∙ rw (prev-elem, next-elem) refl

  prev_after :
      (q : ℕ)
      → (unlink elem m).prev q
        ≡ (if q == elem then 0 else if q == first_or head zs then last_or head ys else m.prev q)
  prev_after q = unlink-prev m elem prev_other q ∙ rw (prev-elem, next-elem) refl

  Seg-unlink_front : Seg (unlink elem m) head ys (first_or head zs)
  Seg-unlink_front =
      Seg-retarget_end m _ head elem (first_or head zs) ys apart_front
        (λ c i ne. ground (arith, next_after c, out_front))
        (λ c i. ground (arith, prev_after c, first_not_front, out_front))
        (ground (arith, next_after (last_or head ys), last-mem head ys, out_front))
        (ground (arith, prev_after (first_or head zs), first-mem head zs, out_back))
        (Seg-split m head head ys (elem ∷ zs) r.chain).0

  Seg-unlink_back : Seg (unlink elem m) (last_or head ys) zs head
  Seg-unlink_back =
      Seg-retarget_start m _ elem head (last_or head ys) zs apart_back
        (λ c i. ground (arith, next_after c, out_back, last_not_back))
        (λ c i ne. ground (arith, prev_after c, out_back))
        (ground (arith, next_after (last_or head ys), last-mem head ys, out_front))
        (ground (arith, prev_after (first_or head zs), first-mem head zs, out_back))
        (Seg-split m head head ys (elem ∷ zs) r.chain).1.2

  Ring-unlink : Ring (unlink elem m) head (ys ++ zs)
  Ring-unlink = record {
    chain = Seg-append _ head head ys zs Seg-unlink_front Seg-unlink_back;
    distinct = remaining.0;
    non_null = ground (arith, r.non_null, has-append 0 ys (elem ∷ zs), has-append 0 ys zs);
  }

  unlink_elsewhere :
      (c : ℕ)
      → c ∉ (head ∷ ys ++ elem ∷ zs)
      → ((unlink elem m).prev c ≡ m.prev c) × ((unlink elem m).next c ≡ m.next c)
  unlink_elsewhere c o =
      let split = has-append c ys (elem ∷ zs) in
      (
        ground (arith, prev_after c, first-mem head zs),
        ground (arith, next_after c, last-mem head ys),
      )

  linked : ((m.prev elem == 0) ≡ false) × ((m.next elem == 0) ≡ false)
  linked =
      let split = has-append 0 ys (elem ∷ zs) in
      (
        ground (arith, prev-elem, last-mem head ys, r.non_null),
        ground (arith, next-elem, first-mem head zs, r.non_null),
      )

  -- `queue_del` of an element never fails: it leaves the others in their order, clears the links of
  -- the element, so that it can be added again, and writes no link outside the list.
  pub queue_del-Ring :
      (n : Links) × (queue_del elem m ≡ some n)
      × Ring n head (ys ++ zs)
      × (n.prev elem ≡ 0)
      × (n.next elem ≡ 0)
      × ((c : ℕ) → c ∉ (head ∷ ys ++ elem ∷ zs) → (n.prev c ≡ m.prev c) × (n.next c ≡ m.next c))
  unfolding queue_del
  queue_del-Ring = (
    unlink elem m,
    rw (linked.0, linked.1) refl,
    Ring-unlink,
    ground (arith, prev_after elem),
    ground (arith, next_after elem),
    unlink_elsewhere,
  )

queue_out-unlink :
    (m : Links) (head z : ℕ)
    → m.prev head ≡ z
    → m.next z ≡ head
    → (m.next head == head) ≡ false
    → m.prev z ≢ z
    → queue_out head m ≡ (z, unlink z m)
unfolding queue_out unlink
queue_out-unlink m head z e f ne other =
    rw (ne, e, f, ==-refl head, ==-ne z (m.prev z) (λ q. other (sym q))) refl

pub head_unlinked :
    (m : Links) (head x : ℕ) (xs : List ℕ) → Ring m head (x ∷ xs) → (m.next head == head) ≡ false
head_unlinked m head x xs r = ground (arith, r.chain.0, r.distinct.0)

-- `queue_out` of an empty list returns NULL and changes nothing.
pub queue_out-nil : (m : Links) (head : ℕ) → Ring m head [] → queue_out head m ≡ (0, m)
unfolding queue_out
queue_out-nil m head r = rw (r.chain.0, ==-refl head) refl

-- `queue_out` of a list that is not empty returns the last element, leaves the others in their
-- order and clears the links of the element, so that it can be added again.
pub queue_out-Ring :
    (m : Links) (head x : ℕ) (xs : List ℕ)
    → Ring m head (x ∷ xs)
    → ((queue_out head m).0 ≡ last_or x xs)
      × Ring (queue_out head m).1 head (front (x ∷ xs))
      × ((queue_out head m).1.prev (last_or x xs) ≡ 0)
      × ((queue_out head m).1.next (last_or x xs) ≡ 0)
queue_out-Ring m head x xs r =
    let z = last_or x xs in
    let ys = front (x ∷ xs) in
    let r' : Ring m head (ys ++ z ∷ []) = rw (front-append-last x xs) r in
    let same =
      queue_out-unlink m head z (Seg-last m head head (x ∷ xs) r.chain)
        (next-elem m head z ys [] r') (head_unlinked m head x xs r)
        (prev_other m head z ys [] r') in
    rw same (
      refl,
      rw (append-nil ys) at (Ring-unlink m head z ys [] r'),
      ground (arith, prev_after m head z ys [] r' z),
      ground (arith, next_after m head z ys [] r' z),
    )

-- The two ends of a list, NULL if it is empty.
pub queue_top-last :
    (m : Links) (head : ℕ) (xs : List ℕ)
    → Ring m head xs
    → (queue_top head m ≡ last_or 0 xs) × (queue_bottom head m ≡ first_or 0 xs)
unfolding queue_top queue_bottom
queue_top-last m head [] r = rw (r.chain.0, ==-refl head) (refl, refl)
queue_top-last m head (x ∷ xs) r =
    rw (head_unlinked m head x xs r) (Seg-last m x head xs r.chain.2, r.chain.0)
