-- ===== src/Queue/Segs.antt =====
-- Runs of linked elements, and what a list head stands for.
use advanced_operating_syste.Base.{
  ℕ, ◌≡◌, ◌≢◌, ◌∙◌, List, [], ◌∷◌, ◌++◌, arith, ◌∈◌, ◌∉◌, Distinct, last_or,
}
use advanced_operating_syste.Queue.{Links}

abbrev pub first_or : ℕ → List ℕ → ℕ
first_or d [] = d
first_or d (x ∷ xs) = x

-- From `a` the links lead through `xs` to `b`, and back.
abbrev pub Seg : Links → ℕ → List ℕ → ℕ → Type 0
Seg m a [] b = (m.next a ≡ b) × (m.prev b ≡ a)
Seg m a (x ∷ xs) b = (m.next a ≡ x) × (m.prev x ≡ a) × Seg m x xs b

-- The list head `head` stands for the elements `xs`, in the order of `queue_for_each`.
pub record Ring (m : Links) (head : ℕ) (xs : List ℕ) : Type 0 where
  pub chain : Seg m head xs head
  pub distinct : Distinct (head ∷ xs)
  pub non_null : 0 ∉ (head ∷ xs)

pub last-mem : (a : ℕ) (xs : List ℕ) → last_or a xs ∈ (a ∷ xs)
last-mem a [] = ground arith
last-mem a (x ∷ xs) = ground (arith, last-mem x xs)

pub first-mem : (b : ℕ) (xs : List ℕ) → first_or b xs ∈ (b ∷ xs)
first-mem b [] = ground arith
first-mem b (x ∷ xs) = ground arith

module _ (m : Links) where
  pub Seg-first : (a b : ℕ) (xs : List ℕ) → Seg m a xs b → m.next a ≡ first_or b xs
  Seg-first a b [] s = s.0
  Seg-first a b (x ∷ xs) s = s.0

  pub Seg-last : (a b : ℕ) (xs : List ℕ) → Seg m a xs b → m.prev b ≡ last_or a xs
  Seg-last a b [] s = s.1
  Seg-last a b (x ∷ xs) s = Seg-last x b xs s.2

  pub Seg-split :
      (a b : ℕ) (ys zs : List ℕ)
      → Seg m a (ys ++ zs) b
      → Seg m a ys (first_or b zs) × Seg m (last_or a ys) zs b
  Seg-split a b [] [] s = (s, s)
  Seg-split a b [] (z ∷ zs) s = ((s.0, s.1), s)
  Seg-split a b (y ∷ ys) zs s =
      let (front, back) = Seg-split y b ys zs s.2 in ((s.0, s.1, front), back)

  pub Seg-append :
      (a b : ℕ) (ys zs : List ℕ)
      → Seg m a ys (first_or b zs)
      → Seg m (last_or a ys) zs b
      → Seg m a (ys ++ zs) b
  Seg-append a b [] zs s t = t
  Seg-append a b (y ∷ ys) zs s t = (s.0, s.1, Seg-append y b ys zs s.2 t)

  -- A run is unchanged where the links that it is made of are.
  pub Seg-frame :
      (n : Links) (a b : ℕ) (xs : List ℕ)
      → ((c : ℕ) → c ∈ (a ∷ xs) → n.next c ≡ m.next c)
      → ((c : ℕ) → c ∈ (b ∷ xs) → n.prev c ≡ m.prev c)
      → Seg m a xs b
      → Seg n a xs b
  Seg-frame n a b [] same_next same_prev s =
      (same_next a (ground arith) ∙ s.0, same_prev b (ground arith) ∙ s.1)
  Seg-frame n a b (x ∷ xs) same_next same_prev s = (
    same_next a (ground arith) ∙ s.0,
    same_prev x (ground arith) ∙ s.1,
    Seg-frame n x b xs (λ c i. same_next c (ground arith)) (λ c i. same_prev c (ground arith)) s.2,
  )

  -- The run is made to end at `d`.
  pub Seg-retarget_end :
      (n : Links) (a b d : ℕ) (xs : List ℕ)
      → Distinct (a ∷ xs)
      → ((c : ℕ) → c ∈ (a ∷ xs) → c ≢ last_or a xs → n.next c ≡ m.next c)
      → ((c : ℕ) → c ∈ xs → n.prev c ≡ m.prev c)
      → n.next (last_or a xs) ≡ d
      → n.prev d ≡ last_or a xs
      → Seg m a xs b
      → Seg n a xs d
  Seg-retarget_end n a b d [] apart same_next same_prev e f s = (e, f)
  Seg-retarget_end n a b d (x ∷ xs) apart same_next same_prev e f s = (
    same_next a (ground arith) (λ q. ground (arith, last-mem x xs)) ∙ s.0,
    same_prev x (ground arith) ∙ s.1,
    Seg-retarget_end n x b d xs apart.1 (λ c i. same_next c (ground arith))
        (λ c i. same_prev c (ground arith)) e f s.2,
  )

  -- The run is made to start from `d`.
  pub Seg-retarget_start :
      (n : Links) (a b d : ℕ) (xs : List ℕ)
      → Distinct (b ∷ xs)
      → ((c : ℕ) → c ∈ xs → n.next c ≡ m.next c)
      → ((c : ℕ) → c ∈ (b ∷ xs) → c ≢ first_or b xs → n.prev c ≡ m.prev c)
      → n.next d ≡ first_or b xs
      → n.prev (first_or b xs) ≡ d
      → Seg m a xs b
      → Seg n d xs b
  Seg-retarget_start n a b d [] apart same_next same_prev e f s = (e, f)
  Seg-retarget_start n a b d (x ∷ xs) apart same_next same_prev e f s = (
    e,
    f,
    Seg-frame n x b xs same_next (λ c i. same_prev c (ground arith) (λ q. ground arith)) s.2,
  )
