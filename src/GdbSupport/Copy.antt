-- ===== src/GdbSupport/Copy.antt =====
-- kernel/gdb_serial_support.c: copying by pages is copying by bytes.
use Prim.Native.Nat.{min}
use advanced_operating_syste.Base.{
  ℕ, zero, suc, ◌+◌, ◌-◌, ◌%◌, ◌^◌, ◌≤◌, ◌<◌, ◌≡◌, ◌≢◌, inl, inr, refl, ◌∙◌, sym, ap, subst, arith,
  ◌&&◌, Bool, true, false, Option, none, some, ltb, leb, ◌==◌, Bool-cases, Option-cases, ◌>>=◌,
  ◌>>=◌,
}
use advanced_operating_syste.Paging.{write}
use advanced_operating_syste.GdbSupport.{
  Memory, Client, phys_addr_lookup, memcpy, Direction, target, source, copy_pages, gdb_copy,
}
use advanced_operating_syste.GdbSupport.Lookup.{address, phys_addr_lookup-Follow}
use advanced_operating_syste.GdbSupport.Bytes.{
  copy_bytes, memcpy-zero, memcpy-suc, Separate, target_next, source_next, advance,
}

address-some :
    (o : Option (ℕ × ℕ)) (pa : ℕ) → address o ≡ some pa → (len : ℕ) × (o ≡ some (pa, len))
address-some none pa e = cc
address-some (some (p, len)) pa e = (len, cc)

same :
    (dir : Direction) (c : Client) {n n1 va va1 buf buf1 : ℕ} {m m1 : Memory}
    → n ≡ n1
    → va ≡ va1
    → buf ≡ buf1
    → m ≡ m1
    → copy_bytes n dir c va buf m ≡ copy_bytes n1 dir c va1 buf1 m1
same dir c en ev eb em = cc

module _ (may_write : ℕ → Bool) (dir : Direction) (c : Client) where
  -- One byte.
  byte :
      (n : ℕ) (m : Memory) (va buf pa : ℕ)
      → address (phys_addr_lookup c m va) ≡ some pa
      → copy_bytes (suc n) dir c va buf m
        ≡ copy_bytes n dir c
            (va + 1)
            (buf + 1)
            (write (target dir pa buf) (m (source dir pa buf)) m)
  unfolding copy_bytes
  byte n m va buf pa e =
      let (len, found) = address-some (phys_addr_lookup c m va) pa e in rw found refl

  differ : (a b : ℕ) → may_write a ≡ true → may_write b ≡ false → a ≢ b
  differ a b on off e = cc

  -- Where the bytes of one page are written and read.
  module _ (n rest : ℕ) (m : Memory) (va buf pa : ℕ)
      (s : Separate may_write dir c m va buf (n + rest))
      (found : (j : ℕ) → j < n → address (phys_addr_lookup c m (va + j)) ≡ some (pa + j)) where
    writable : (j : ℕ) → j < n → may_write (target dir pa buf + j) ≡ true
    writable j lt =
        ap may_write (sym (target_next dir pa buf j))
        ∙ s.writes j (pa + j) (omega arith) (found j lt)

    readable : (j : ℕ) → j < n → may_write (source dir pa buf + j) ≡ false
    readable j lt =
        ap may_write (sym (source_next dir pa buf j))
        ∙ s.reads j (pa + j) (omega arith) (found j lt)

    -- Elsewhere the memory stays.
    memcpy-agrees :
        (a : ℕ) → may_write a ≡ false → memcpy (target dir pa buf) (source dir pa buf) n m a ≡ m a
    unfolding memcpy
    memcpy-agrees a off =
        let t = target dir pa buf in
        elim (Bool-cases (leb t a && ltb a (t + n))) [
          | inl inside ↦
              let back : t + (a - t) ≡ a = ground arith in
              absurd
                (differ a a (sym (ap may_write back) ∙ writable (a - t) (ground arith)) off refl)
          | inr outside ↦ rw outside refl
        ]

    write-agrees :
        0 < n
        → (a : ℕ) → may_write a ≡ false
        → write (target dir pa buf) (m (source dir pa buf)) m a ≡ m a
    write-agrees p a off =
        let t = target dir pa buf in
        let first : t + 0 ≡ t = omega arith in
        let other = differ t a (sym (ap may_write first) ∙ writable 0 p) off in
        ground (arith, other)

    apart : (j : ℕ) → suc j < n → target dir pa buf ≢ source dir pa buf + 1 + j
    apart j lt =
        let t = target dir pa buf in
        let f = source dir pa buf in
        let first : t + 0 ≡ t = omega arith in
        let later : f + 1 + j ≡ f + suc j = omega arith in
        differ t (f + 1 + j) (sym (ap may_write first) ∙ writable 0 (omega arith))
          (ap may_write later ∙ readable (suc j) lt)

  -- The bytes of one page.
  chunk :
      (n rest : ℕ) (m : Memory) (va buf pa : ℕ)
      → Separate may_write dir c m va buf (n + rest)
      → ((j : ℕ) → j < n → address (phys_addr_lookup c m (va + j)) ≡ some (pa + j))
      → copy_bytes (n + rest) dir c va buf m
        ≡ copy_bytes rest dir c
            (va + n)
            (buf + n)
            (memcpy (target dir pa buf) (source dir pa buf) n m)
  chunk zero rest m va buf pa s found =
      same dir c (omega arith) (omega arith) (omega arith)
        (sym (memcpy-zero (target dir pa buf) (source dir pa buf) m))
  chunk (suc n) rest m va buf pa s found =
      let t = target dir pa buf in
      let f = source dir pa buf in
      let m1 = write t (m f) m in
      let v : va + 0 ≡ va = omega arith in
      let p : pa + 0 ≡ pa = omega arith in
      let here : address (phys_addr_lookup c m va) ≡ some pa =
        rw (v, p) at (found 0 (omega arith)) in
      let agree = write-agrees (suc n) rest m va buf pa s found (omega arith) in
      let size : suc n + rest ≡ 1 + (n + rest) = omega arith in
      let next =
        advance may_write dir c m m1 va buf 1 (n + rest)
          (subst (Separate may_write dir c m va buf) size s) agree in
      let later = λ (j : ℕ) (lt : j < n).
        let w : va + 1 + j ≡ va + suc j = omega arith in
        let q : pa + 1 + j ≡ pa + suc j = omega arith in
        ap address (s.stable m1 agree (va + 1 + j) ∙ ap (phys_addr_lookup c m) w)
        ∙ found (suc j) (omega arith)
        ∙ ap some (sym q) in
      let once =
        memcpy-suc t f n m (λ j lt. apart (suc n) rest m va buf pa s found j (omega arith)) in
      same dir c {n = suc n + rest} {n1 = suc (n + rest)} (omega arith) refl refl refl
      ∙ byte (n + rest) m va buf pa here
      ∙ chunk n rest m1 (va + 1) (buf + 1) (pa + 1) next later
      ∙ same dir c refl (omega arith) (omega arith) (
          ap (λ t. memcpy t (source dir (pa + 1) (buf + 1)) n m1) (target_next dir pa buf 1)
          ∙ ap (λ f. memcpy (t + 1) f n m1) (source_next dir pa buf 1)
          ∙ sym once)

  step :
      (fuel va buf more : ℕ) (m : Memory) (pa len : ℕ)
      → phys_addr_lookup c m va ≡ some (pa, len)
      → (let sz = min len (suc more) in
          copy_pages (suc fuel) dir c va buf (suc more) m
          ≡ copy_pages fuel dir c
              ((va + sz) % 2 ^ 32)
              ((buf + sz) % 2 ^ 32)
              (suc more - sz)
              (memcpy (target dir pa buf) (source dir pa buf) sz m))
  unfolding copy_pages
  step fuel va buf more m pa len found =
      let busy : (suc more == 0) ≡ false = ground arith in rw (busy, found) refl

  -- An address wraps around only when nothing is left to copy.
  wrapped :
      (fuel va buf rest : ℕ) (m : Memory)
      → 0 < fuel
      → va + rest ≤ 2 ^ 32
      → buf + rest ≤ 2 ^ 32
      → copy_pages fuel dir c (va % 2 ^ 32) (buf % 2 ^ 32) rest m
        ≡ copy_pages fuel dir c va buf rest m
  unfolding copy_pages
  wrapped zero va buf rest m p h k = absurd (omega arith)
  wrapped (suc fuel) va buf zero m p h k = refl
  wrapped (suc fuel) va buf (suc rest) m p h k =
      ap (λ v. copy_pages (suc fuel) dir c v (buf % 2 ^ 32) (suc rest) m) {x = va % 2 ^ 32} {y = va}
        (omega arith)
      ∙ ap (λ b. copy_pages (suc fuel) dir c va b (suc rest) m) {x = buf % 2 ^ 32} {y = buf}
          (omega arith)

  page_by_page :
      (fuel : ℕ) (va buf size : ℕ) (m : Memory)
      → size < fuel
      → va + size ≤ 2 ^ 32
      → buf + size ≤ 2 ^ 32
      → Separate may_write dir c m va buf size
      → copy_pages fuel dir c va buf size m ≡ some (copy_bytes size dir c va buf m)
  unfolding copy_pages copy_bytes
  page_by_page zero va buf size m h k l s = absurd (omega arith)
  page_by_page (suc fuel) va buf zero m h k l s = refl
  page_by_page (suc fuel) va buf (suc more) m h k l s =
      elim (Option-cases (phys_addr_lookup c m va)) [
        | inl absent ↦ let busy : (suc more == 0) ≡ false = ground arith in rw (busy, absent) refl
        | inr ((pa, len), found) ↦
            let size = suc more in
            let (positive, follow) = phys_addr_lookup-Follow c m va pa len found in
            let sz = min len size in
            let rest = size - sz in
            let m1 = memcpy (target dir pa buf) (source dir pa buf) sz m in
            let whole : sz + rest ≡ size = omega arith in
            let s0 = subst (Separate may_write dir c m va buf) (sym whole) s in
            let bytes = λ (j : ℕ) (lt : j < sz). follow j (omega arith) in
            let next =
              advance may_write dir c m m1 va buf sz rest s0
                (memcpy-agrees sz rest m va buf pa s0 bytes) in
            let copied =
              same dir c (sym whole) refl refl refl ∙ chunk sz rest m va buf pa s0 bytes in
            step fuel va buf more m pa len found
            ∙ wrapped fuel (va + sz) (buf + sz) rest m1 (omega arith) (omega arith) (omega arith)
            ∙ page_by_page fuel (va + sz) (buf + sz) rest m1 (omega arith) (omega arith)
                (omega arith) next
            ∙ ap some (sym copied)
      ]

-- Where the bytes that a call writes are apart from those that it reads and from the client's page
-- tables, and neither range goes beyond 2^32, `gdb_copyin` and `gdb_copyout` end; their result and
-- the memory are those of a copy byte by byte, which stops at the first byte that is not mapped;
-- and the processor's paging is what it was.
pub gdb_copy-bytes :
    (may_write : ℕ → Bool) (dir : Direction) (c : Client) (va buf size cr0 : ℕ) (m : Memory)
    → va + size ≤ 2 ^ 32
    → buf + size ≤ 2 ^ 32
    → Separate may_write dir c m va buf size
    → (let (result, n) = copy_bytes size dir c va buf m in
        gdb_copy dir c va buf size (cr0, m) ≡ some (result, (cr0, n)))
unfolding gdb_copy
gdb_copy-bytes may_write dir c va buf size cr0 m h k s =
    ap (λ o. o >>= λ (result, m). some (result, (cr0, m)))
      (page_by_page may_write dir c (suc size) va buf size m (omega arith) h k s)
