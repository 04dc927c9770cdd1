-- ===== src/GdbSupport/Tests.antt =====
-- Examples for kernel/gdb_serial_support.c.
use advanced_operating_syste.Base.{
  ℕ, zero, suc, ◌≡◌, ◌+◌, ◌*◌, ◌/◌, ◌%◌, ◌-◌, ◌<◌, ◌^◌, inl, inr, refl, sym, ◌∙◌, some, none, arith,
  Bool, false, ◌&&◌, ◌==◌, ltb, leb, if◌then◌else◌, Bool-cases,
}
use advanced_operating_syste.Base.Int.{negsuc}
use advanced_operating_syste.Paging.{write}
use advanced_operating_syste.Paging.Example.{small, nothing, small-IsLinked, checked}
use advanced_operating_syste.Paging.Boot.{early_mm_map_kernel-entries}
use advanced_operating_syste.GdbSupport.{
  Memory, Client, copyin, word, lookup_entry, lookup_superpage, phys_addr_lookup, gdb_copy,
}
use advanced_operating_syste.GdbSupport.Bytes.{copy_bytes, Separate}
use advanced_operating_syste.GdbSupport.Lookup.{address}
use advanced_operating_syste.GdbSupport.Copy.{gdb_copy-bytes}
use advanced_operating_syste.GdbSupport.Identity.{Holds, phys_addr_lookup-identity}

-- A memory with the words of the small kernel's tables, each in its first byte.
abbrev tables : ℕ → ℕ
tables = (early_mm_map_kernel-entries small nothing checked small-IsLinked).1.0

abbrev bytes : Memory
bytes a = if a % 4 == 0 then tables a else 0

abbrev kernel : Client
kernel = record { client_cr0 = 2147483649; client_cr3 = 4096 }

bytes-Holds : Holds bytes tables
bytes-Holds a e = ground arith

phys_addr_lookup-identity_example :
    phys_addr_lookup kernel bytes 1052673
    ≡ (if ltb 1052673 4096 then none else some (1052673, 4096 - 1052673 % 4096))
phys_addr_lookup-identity_example =
    phys_addr_lookup-identity small nothing tables bytes kernel 1052673 checked small-IsLinked
      (early_mm_map_kernel-entries small nothing checked small-IsLinked).1.1 bytes-Holds refl refl
      refl (inr (inl (omega arith, omega arith)))

-- A page directory at 0 whose first entry is a page of 4 MB, and whose others are absent.
abbrev memory : Memory
memory a = if a == 0 then 131 else if ltb a 4096 then 0 else a % 256

abbrev one_superpage : Client
one_superpage = record { client_cr0 = 2147483649; client_cr3 = 0 }

abbrev buffer : ℕ → Bool
buffer a = leb 8192 a && ltb a 8196

last_two_bytes : phys_addr_lookup one_superpage memory 4194302 ≡ some (4194302, 2)
unfolding phys_addr_lookup lookup_entry lookup_superpage
last_two_bytes = refl

memory_reads :
    (j pa : ℕ)
    → j < 4
    → address (phys_addr_lookup one_superpage memory (4194302 + j)) ≡ some pa
    → buffer pa ≡ false
unfolding phys_addr_lookup lookup_entry lookup_superpage
memory_reads zero pa lt e = ground (arith, e)
memory_reads (suc zero) pa lt e = ground (arith, e)
memory_reads (suc (suc zero)) pa lt e = cc
memory_reads (suc (suc (suc zero))) pa lt e = cc
memory_reads (suc (suc (suc (suc j)))) pa lt e = absurd (omega arith)

directory_stays :
    (n : Memory)
    → ((a : ℕ) → buffer a ≡ false → n a ≡ memory a)
    → (i : ℕ) → i < 1024
    → word n (0 + 4 * i) ≡ (if i == 0 then 131 else 0)
directory_stays n same i h = ground (
  arith,
  same (0 + 4 * i) (ground arith),
  same (0 + 4 * i + 1) (ground arith),
  same (0 + 4 * i + 2) (ground arith),
  same (0 + 4 * i + 3) (ground arith),
)

lookup_stays :
    (n : Memory)
    → ((a : ℕ) → buffer a ≡ false → n a ≡ memory a)
    → (v : ℕ)
    → phys_addr_lookup one_superpage n v
      ≡ (if v / 2 ^ 22 % 2 ^ 10 == 0 then lookup_superpage 131 v else none)
unfolding phys_addr_lookup lookup_entry
lookup_stays n same v =
    let i = v / 2 ^ 22 % 2 ^ 10 in
    let pde = directory_stays n same i (omega arith) in
    elim (Bool-cases (i == 0)) [
      | inl first ↦ rw (pde, first) refl
      | inr later ↦ rw (pde, later) refl
    ]

memory-Separate : Separate buffer copyin one_superpage memory 4194302 8192 4
memory-Separate = record {
  writes = λ j pa lt e. ground arith;
  reads = memory_reads;
  stable = λ n same v. lookup_stays n same v ∙ sym (lookup_stays memory (λ a off. refl) v);
}

-- The last two bytes of the page are copied.
gdb_copy-bytes_example :
    gdb_copy copyin one_superpage 4194302 8192 4 (2147483649, memory)
    ≡ some
        (negsuc 0, (2147483649, write 8193 (memory 4194303) (write 8192 (memory 4194302) memory)))
unfolding copy_bytes phys_addr_lookup lookup_entry lookup_superpage
gdb_copy-bytes_example =
    gdb_copy-bytes buffer copyin one_superpage 4194302 8192 4 2147483649 memory (omega arith)
      (omega arith) memory-Separate
