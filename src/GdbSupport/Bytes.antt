-- ===== src/GdbSupport/Bytes.antt =====
-- kernel/gdb_serial_support.c: a copy byte by byte, and `memcpy`.
use cubical.Cubical.Foundations.Prelude.{fun_ext}
use advanced_operating_syste.Base.{
  ℕ, zero, suc, ◌+◌, ◌-◌, ◌<◌, ◌≡◌, ◌≢◌, refl, ◌∙◌, sym, arith, Bool, true, false, some,
}
use advanced_operating_syste.Base.Int.{ℤ, pos, negsuc}
use advanced_operating_syste.Paging.{write}
use advanced_operating_syste.GdbSupport.{
  Memory, Client, phys_addr_lookup, memcpy, Direction, copyin, copyout, target, source, mapped,
}
use advanced_operating_syste.GdbSupport.Lookup.{address}

-- The reference: each byte is looked up, until one is not mapped.
unfoldable pub copy_bytes : ℕ → Direction → Client → ℕ → ℕ → Memory → ℤ × Memory
copy_bytes zero dir c va buf m = (pos 0, m)
copy_bytes (suc n) dir c va buf m =
    mapped (phys_addr_lookup c m va) (negsuc 0, m)
      (λ pa len.
        copy_bytes n dir c (va + 1) (buf + 1) (write (target dir pa buf) (m (source dir pa buf)) m))

pub memcpy-zero : (d s : ℕ) (m : Memory) → memcpy d s 0 m ≡ m
unfolding memcpy
memcpy-zero d s m = fun_ext (λ a. ground arith)

-- The first byte of a copy whose places do not overlap.
pub memcpy-suc :
    (d s n : ℕ) (m : Memory)
    → ((j : ℕ) → j < n → d ≢ s + 1 + j)
    → memcpy d s (suc n) m ≡ memcpy (d + 1) (s + 1) n (write d (m s) m)
unfolding memcpy
memcpy-suc d s n m apart = fun_ext (λ a. ground (arith, apart (a - (d + 1))))

-- The bytes that a call may write, those that it reads, and the page tables do not overlap:
-- `may_write` is true at the first, false at the second, and the lookups do not depend on where it
-- is true.
pub record Separate (may_write : ℕ → Bool) (dir : Direction) (c : Client) (m : Memory)
    (va buf size : ℕ) : Type 0 where
  pub writes :
      (j pa : ℕ)
      → j < size
      → address (phys_addr_lookup c m (va + j)) ≡ some pa
      → may_write (target dir pa (buf + j)) ≡ true
  pub reads :
      (j pa : ℕ)
      → j < size
      → address (phys_addr_lookup c m (va + j)) ≡ some pa
      → may_write (source dir pa (buf + j)) ≡ false
  pub stable :
      (n : Memory)
      → ((a : ℕ) → may_write a ≡ false → n a ≡ m a)
      → (v : ℕ) → phys_addr_lookup c n v ≡ phys_addr_lookup c m v

pub target_next :
    (dir : Direction) (pa buf j : ℕ) → target dir (pa + j) (buf + j) ≡ target dir pa buf + j
target_next copyin pa buf j = refl
target_next copyout pa buf j = refl

pub source_next :
    (dir : Direction) (pa buf j : ℕ) → source dir (pa + j) (buf + j) ≡ source dir pa buf + j
source_next copyin pa buf j = refl
source_next copyout pa buf j = refl

-- What was true of all bytes is true of the rest, after writes where they are allowed.
pub advance :
    (may_write : ℕ → Bool) (dir : Direction) (c : Client) (m m1 : Memory) (va buf n rest : ℕ)
    → Separate may_write dir c m va buf (n + rest)
    → ((a : ℕ) → may_write a ≡ false → m1 a ≡ m a)
    → Separate may_write dir c m1 (va + n) (buf + n) rest
advance may_write dir c m m1 va buf n rest s agree = record {
  writes = λ j pa lt e.
      let v : va + n + j ≡ va + (n + j) = omega arith in
      let b : buf + n + j ≡ buf + (n + j) = omega arith in
      rw b (s.writes (n + j) pa (omega arith) (rw (s.stable m1 agree (va + n + j), v) at e));
  reads = λ j pa lt e.
      let v : va + n + j ≡ va + (n + j) = omega arith in
      let b : buf + n + j ≡ buf + (n + j) = omega arith in
      rw b (s.reads (n + j) pa (omega arith) (rw (s.stable m1 agree (va + n + j), v) at e));
  stable = λ o same v. s.stable o (λ a off. same a off ∙ agree a off) v ∙ sym (s.stable m1 agree v);
}
