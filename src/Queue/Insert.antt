-- ===== src/Queue/Insert.antt =====
-- `queue_add` against insertion into a list.
use advanced_operating_syste.Base.{
  ℕ, zero, suc, ◌<◌, ◌≡◌, refl, ◌≢◌, inl, inr, some, List, [], ◌∷◌, ◌++◌, arith, ◌==◌, ◌∉◌, has,
  Distinct, last_or, has-append, length, ltb, if◌then◌else◌, Bool-cases, ==-ne, Distinct-append,
  Distinct-insert,
}
use advanced_operating_syste.Queue.{Links, scan, splice, queue_add}
use advanced_operating_syste.Queue.Segs.{
  Seg, Ring, first_or, last-mem, first-mem, Seg-last, Seg-split, Seg-append, Seg-retarget_end,
  Seg-retarget_start,
}

-- The elements that `queue_add` passes, and those from its stopping place on.
abbrev pub below : (ℕ → ℕ) → ℕ → List ℕ → List ℕ
below prio level [] = []
below prio level (x ∷ xs) = if ltb (prio x) level then x ∷ below prio level xs else []

abbrev pub from : (ℕ → ℕ) → ℕ → List ℕ → List ℕ
from prio level [] = []
from prio level (x ∷ xs) = if ltb (prio x) level then from prio level xs else x ∷ xs

pub below-append-from :
    (prio : ℕ → ℕ) (level : ℕ) (xs : List ℕ) → below prio level xs ++ from prio level xs ≡ xs
below-append-from prio level [] = refl
below-append-from prio level (x ∷ xs) = ground (arith, below-append-from prio level xs)

-- What the list becomes: the element goes before the first whose priority is not below its own.
unfoldable pub insert : (ℕ → ℕ) → ℕ → List ℕ → List ℕ
insert prio elem [] = elem ∷ []
insert prio elem (x ∷ xs) =
    if ltb (prio x) (prio elem) then x ∷ insert prio elem xs else elem ∷ x ∷ xs

insert-split :
    (prio : ℕ → ℕ) (elem : ℕ) (xs : List ℕ)
    → insert prio elem xs ≡ below prio (prio elem) xs ++ elem ∷ from prio (prio elem) xs
unfolding insert
insert-split prio elem [] = refl
insert-split prio elem (x ∷ xs) = ground (arith, insert-split prio elem xs)

scan-from :
    (prio : ℕ → ℕ) (level : ℕ) (m : Links) (head a : ℕ) (fuel : ℕ) (xs : List ℕ)
    → length xs < fuel
    → head ∉ xs
    → Seg m a xs head
    → scan fuel prio level head (m.next a) m ≡ some (first_or head (from prio level xs))
unfolding scan
scan-from prio level m head a zero xs h out s = elim h [ ]
scan-from prio level m head a (suc fuel) [] h out s = ground arith
scan-from prio level m head a (suc fuel) (x ∷ xs) h out s =
    ground (arith, scan-from prio level m head x fuel xs (ground arith) (ground arith) s.2)

module _ (m : Links) (elem cur : ℕ) (other : cur ≢ elem) where
  splice-next :
      (q : ℕ)
      → (splice elem cur m).next q
        ≡ (if q == m.prev cur then elem else if q == elem then cur else m.next q)
  unfolding splice
  splice-next q = rw (==-ne cur elem other) refl

  splice-prev :
      (q : ℕ)
      → (splice elem cur m).prev q
        ≡ (if q == cur then elem else if q == elem then m.prev cur else m.prev q)
  unfolding splice
  splice-prev q = refl

-- The four writes put `elem` between two runs.
module _ (m : Links) (head elem : ℕ) (ys zs : List ℕ) (r : Ring m head (ys ++ zs))
    (out : elem ∉ (head ∷ ys ++ zs)) where
  out_front : elem ∉ (head ∷ ys)
  out_front = ground (arith, has-append elem (head ∷ ys) zs)

  out_back : elem ∉ (head ∷ zs)
  out_back = ground (arith, has-append elem (head ∷ ys) zs)

  first_other : first_or head zs ≢ elem
  first_other e = ground (arith, first-mem head zs, out_back)

  Seg-front : Seg m head ys (first_or head zs)
  Seg-front = (Seg-split m head head ys zs r.chain).0

  prev-first : m.prev (first_or head zs) ≡ last_or head ys
  prev-first = Seg-last m head (first_or head zs) ys Seg-front

  apart_front : Distinct (head ∷ ys)
  apart_front = (Distinct-append (head ∷ ys) zs r.distinct).0

  apart_back : Distinct (head ∷ zs)
  apart_back =
      let (dy, dz, apart) = Distinct-append (head ∷ ys) zs r.distinct in
      (apart head (ground arith), dz)

  last_not_back : last_or head ys ∉ zs
  last_not_back = (Distinct-append (head ∷ ys) zs r.distinct).2 (last_or head ys) (last-mem head ys)

  first_not_front : first_or head zs ∉ ys
  first_not_front = elim (Bool-cases (has (first_or head zs) ys)) [
    | inl i ↦ ground (
      arith,
      first-mem head zs,
      (Distinct-append (head ∷ ys) zs r.distinct).2 (first_or head zs) (ground arith),
      apart_front.0,
    )
    | inr o ↦ o
  ]

  Seg-splice_front : Seg (splice elem (first_or head zs) m) head ys elem
  Seg-splice_front =
      Seg-retarget_end m _ head (first_or head zs) elem ys apart_front
        (λ c i ne.
          ground
            (arith, splice-next m elem (first_or head zs) first_other c, prev-first, out_front))
        (λ c i.
          ground (
            arith,
            splice-prev m elem (first_or head zs) first_other c,
            first_not_front,
            out_front,
          ))
        (ground
          (arith, splice-next m elem (first_or head zs) first_other (last_or head ys), prev-first))
        (ground
          (arith, splice-prev m elem (first_or head zs) first_other elem, prev-first, first_other))
        Seg-front

  Seg-splice_back : Seg (splice elem (first_or head zs) m) elem zs head
  Seg-splice_back =
      Seg-retarget_start m _ (last_or head ys) head elem zs apart_back
        (λ c i. ground (
          arith,
          splice-next m elem (first_or head zs) first_other c,
          prev-first,
          out_back,
          last_not_back,
        ))
        (λ c i ne. ground (arith, splice-prev m elem (first_or head zs) first_other c, out_back))
        (ground (
          arith,
          splice-next m elem (first_or head zs) first_other elem,
          prev-first,
          last-mem head ys,
          out_front,
        ))
        (ground (arith, splice-prev m elem (first_or head zs) first_other (first_or head zs)))
        (Seg-split m head head ys zs r.chain).1

  Ring-splice : elem ≢ 0 → Ring (splice elem (first_or head zs) m) head (ys ++ elem ∷ zs)
  Ring-splice nz = record {
    chain = Seg-append _ head head ys (elem ∷ zs) Seg-splice_front (
      ground
          (arith, splice-next m elem (first_or head zs) first_other (last_or head ys), prev-first),
      ground
          (arith, splice-prev m elem (first_or head zs) first_other elem, prev-first, first_other),
      Seg-splice_back,
    );
    distinct = Distinct-insert elem (head ∷ ys) zs r.distinct out;
    non_null = ground (arith, r.non_null, has-append 0 ys (elem ∷ zs), has-append 0 ys zs);
  }

  splice_elsewhere :
      (c : ℕ)
      → c ∉ (head ∷ elem ∷ ys ++ zs)
      → ((splice elem (first_or head zs) m).prev c ≡ m.prev c)
        × ((splice elem (first_or head zs) m).next c ≡ m.next c)
  splice_elsewhere c o =
      let split = has-append c ys zs in
      (
        ground (arith, splice-prev m elem (first_or head zs) first_other c, first-mem head zs),
        ground (
          arith,
          splice-next m elem (first_or head zs) first_other c,
          prev-first,
          last-mem head ys,
        ),
      )

-- What `queue_add` does to a list: on an element that is in no list, whose links are null, and with
-- more fuel than the list has elements, it does not fail, inserts the element before the first one
-- whose priority is not below its own, and writes no link outside the list.
pub queue_add-Ring :
    (fuel : ℕ) (prio : ℕ → ℕ) (elem head : ℕ) (m : Links) (xs : List ℕ)
    → Ring m head xs
    → elem ∉ (head ∷ xs)
    → elem ≢ 0
    → m.prev elem ≡ 0
    → m.next elem ≡ 0
    → length xs < fuel
    → (n : Links) × (queue_add fuel prio elem head m ≡ some n)
      × Ring n head (insert prio elem xs)
      × ((c : ℕ) → c ∉ (head ∷ elem ∷ xs) → (n.prev c ≡ m.prev c) × (n.next c ≡ m.next c))
unfolding queue_add
queue_add-Ring fuel prio elem head m xs r out nz np nn enough =
    let ys = below prio (prio elem) xs in
    let zs = from prio (prio elem) xs in
    let split : ys ++ zs ≡ xs = below-append-from prio (prio elem) xs in
    let r' : Ring m head (ys ++ zs) = rw split r in
    let out' : elem ∉ (head ∷ ys ++ zs) = rw split out in
    (
      splice elem (first_or head zs) m,
      rw (np, nn, scan-from prio (prio elem) m head head fuel xs enough r.distinct.0 r.chain) refl,
      rw insert-split (Ring-splice m head elem ys zs r' out' nz),
      λ c o. splice_elsewhere m head elem ys zs r' out' c (rw split o),
    )
