-- ===== src/Paging/Tests.antt =====
-- Examples for kernel/boot/early_mm.c.
use advanced_operating_syste.Base.{ℕ, ◌+◌, ◌*◌, ◌≡◌, refl, arith, Ends}
use advanced_operating_syste.Paging.{
  Region, page_table_ro, page_table_rw, early_mm_fill_pgdir, early_mm_map_region,
  early_mm_map_kernel,
}
use advanced_operating_syste.Paging.Directory.{Filled, early_mm_fill_pgdir-Filled}
use advanced_operating_syste.Paging.Range.{entry, Mapped, early_mm_map_region-Mapped}
use advanced_operating_syste.Paging.Layout.{Within}
use advanced_operating_syste.Paging.Boot.{early_mm_map_kernel-protects}
use advanced_operating_syste.Paging.Example.{small, nothing, apart, small-IsLinked, checked}

early_mm_map_kernel-protects_example :
    Ends
      (λ n.
        (entry 8192 n 0 ≡ 0)
        × ((p : ℕ) → Within 1052672 1056768 p → entry 8192 n p ≡ p * 4096 + page_table_ro)
        × ((p : ℕ) → Within 1064960 1069056 p → entry 8192 n p ≡ p * 4096 + page_table_ro)
        × ((p : ℕ) → Within 1069056 1073152 p → entry 8192 n p ≡ p * 4096 + page_table_rw)
        × ((p : ℕ) → Within 1077248 268435456 p → entry 8192 n p ≡ p * 4096 + page_table_rw))
      (early_mm_map_kernel small nothing)
early_mm_map_kernel-protects_example =
    early_mm_map_kernel-protects small nothing checked small-IsLinked

filled : Filled 4096 8192 64 (early_mm_fill_pgdir 4096 8192 64 nothing)
filled = (early_mm_fill_pgdir-Filled 4096 8192 64 nothing refl (omega arith)).0

abbrev region : Region
region = record { first = 1048576; last = 1056768; flags = 3 }

early_mm_map_region-Mapped_example :
    Ends
      (λ n.
        Mapped 8192 1048576 1056768 3 (early_mm_fill_pgdir 4096 8192 64 nothing) n
        × Filled 4096 8192 64 n)
      (early_mm_map_region 4096 region (early_mm_fill_pgdir 4096 8192 64 nothing))
early_mm_map_region-Mapped_example =
    early_mm_map_region-Mapped 4096 8192 region (early_mm_fill_pgdir 4096 8192 64 nothing) apart
      filled (omega arith) refl (omega arith) (omega arith)
