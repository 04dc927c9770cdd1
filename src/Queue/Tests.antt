-- ===== src/Queue/Tests.antt =====
-- Examples for shared/queue.h: a list of two elements, and one more that comes in.
use advanced_operating_syste.Base.{ℕ, ◌≡◌, refl, some, [], ◌∷◌, arith, ◌==◌, if◌then◌else◌, ◌∉◌}
use advanced_operating_syste.Queue.{Links, queue_add, queue_del, queue_out}
use advanced_operating_syste.Queue.Segs.{Ring}
use advanced_operating_syste.Queue.Insert.{insert, queue_add-Ring}
use advanced_operating_syste.Queue.Remove.{queue_del-Ring, queue_out-Ring}

-- The head is at 1; the elements are at 10 and 20.
abbrev two : Links
two = record {
  prev = λ p. if p == 1 then 20 else if p == 10 then 1 else if p == 20 then 10 else 0;
  next = λ p. if p == 1 then 10 else if p == 10 then 20 else if p == 20 then 1 else 0;
}

abbrev nothing : Links
nothing = record { prev = λ _. 0; next = λ _. 0 }

two-Ring : Ring two 1 (10 ∷ 20 ∷ [])
two-Ring = record {
  chain = (refl, refl, (refl, refl, (refl, refl)));
  distinct = (refl, (refl, (refl, tt)));
  non_null = refl;
}

-- An element's priority: its address.
abbrev by_address : ℕ → ℕ
by_address p = p

queue_add-Ring_example :
    (n : Links) × (queue_add 3 by_address 15 1 two ≡ some n)
    × Ring n 1 (insert by_address 15 (10 ∷ 20 ∷ []))
    × ((c : ℕ) → c ∉ (1 ∷ 15 ∷ 10 ∷ 20 ∷ []) → (n.prev c ≡ two.prev c) × (n.next c ≡ two.next c))
queue_add-Ring_example =
    queue_add-Ring 3 by_address 15 1 two (10 ∷ 20 ∷ []) two-Ring refl (λ e. ground arith) refl refl
      (omega arith)

queue_del-Ring_example :
    (n : Links) × (queue_del 10 two ≡ some n)
    × Ring n 1 (20 ∷ [])
    × (n.prev 10 ≡ 0)
    × (n.next 10 ≡ 0)
    × ((c : ℕ) → c ∉ (1 ∷ 10 ∷ 20 ∷ []) → (n.prev c ≡ two.prev c) × (n.next c ≡ two.next c))
queue_del-Ring_example = queue_del-Ring two 1 10 [] (20 ∷ []) two-Ring

queue_out-Ring_example :
    ((queue_out 1 two).0 ≡ 20)
    × Ring (queue_out 1 two).1 1 (10 ∷ [])
    × ((queue_out 1 two).1.prev 20 ≡ 0)
    × ((queue_out 1 two).1.next 20 ≡ 0)
queue_out-Ring_example = queue_out-Ring two 1 10 (20 ∷ []) two-Ring
