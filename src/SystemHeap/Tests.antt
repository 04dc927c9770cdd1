-- ===== src/SystemHeap/Tests.antt =====
-- Examples for `sbrk`: a heap of 4096 bytes at 1 MB.
use advanced_operating_syste.Base.{ℕ, ◌+◌, ◌≤◌, List, [], ◌∷◌, arith, All}
use advanced_operating_syste.SystemHeap.{serve, serve-Disjoint, Disjoint}

abbrev requests : List ℕ
requests = 1000 ∷ 4000 ∷ 3000 ∷ []

serve-Disjoint_example :
    All (λ b. (1048576 ≤ b.0) × (b.0 + b.1 ≤ 1052672)) (serve 1052672 1048576 requests)
    × Disjoint (serve 1052672 1048576 requests)
serve-Disjoint_example =
    serve-Disjoint 1052672 1048576 requests (omega arith) (omega arith)
      (omega arith, (omega arith, (omega arith, tt)))
