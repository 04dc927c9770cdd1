-- ===== src/Segments/Fields.antt =====
-- kernel/boot/processor_structs.c: the fields of descriptors and gates.
use Prim.Native.Nat.{bit_or}
use advanced_operating_syste.Base.{ℕ, ◌+◌, ◌*◌, ◌/◌, ◌%◌, ◌^◌, ◌<◌, ◌≡◌, ◌∙◌, ap, arith}
use advanced_operating_syste.Base.Bits.{bit_or-field, field-bit_or}
use advanced_operating_syste.Segments.{scaled, fill_descriptor, fill_gate}

-- Four fields above a byte, joined one after another.
joined :
    (b a l s h : ℕ)
    → b < 2 ^ 8
    → a < 2 ^ 8
    → l < 2 ^ 4
    → s < 2 ^ 4
    → bit_or (bit_or (bit_or (bit_or b (a * 2 ^ 8)) (l * 2 ^ 16)) (s * 2 ^ 20)) (h * 2 ^ 24)
      ≡ h * 2 ^ 24 + s * 2 ^ 20 + l * 2 ^ 16 + a * 2 ^ 8 + b
joined b a l s h hb ha hl hs =
    let w1 = a * 2 ^ 8 + b in
    let w2 = l * 2 ^ 16 + w1 in
    let w3 = s * 2 ^ 20 + w2 in
    ap (λ w. bit_or (bit_or (bit_or w (l * 2 ^ 16)) (s * 2 ^ 20)) (h * 2 ^ 24))
      (bit_or-field 8 a b hb)
    ∙ ap (λ w. bit_or (bit_or w (s * 2 ^ 20)) (h * 2 ^ 24)) (bit_or-field 16 l w1 (omega arith))
    ∙ ap (λ w. bit_or w (h * 2 ^ 24)) (bit_or-field 20 s w2 (omega arith))
    ∙ bit_or-field 24 h w3 (omega arith)
    ∙ omega arith

-- The processor's reading of a descriptor.
abbrev pub base_of : ℕ → ℕ
base_of entry = entry / 2 ^ 16 % 2 ^ 24 + entry / 2 ^ 56 % 2 ^ 8 * 2 ^ 24

abbrev pub limit_of : ℕ → ℕ
limit_of entry = entry % 2 ^ 16 + entry / 2 ^ 48 % 2 ^ 4 * 2 ^ 16

abbrev pub access_of : ℕ → ℕ
access_of entry = entry / 2 ^ 40 % 2 ^ 8

abbrev pub size_of : ℕ → ℕ
size_of entry = entry / 2 ^ 52 % 2 ^ 4

scaled_low : (limit sizebits : ℕ) → limit < 2 ^ 32 → (scaled limit sizebits).0 < 2 ^ 20
unfolding scaled
scaled_low limit sizebits h = ground arith

-- What `fill_descriptor` builds is read back as it was given: the base, the limit in bytes or,
-- above 1 MB, in pages, the access byte with the bit "present", and the size bits.
pub fill_descriptor-fields :
    (base limit access sizebits : ℕ)
    → base < 2 ^ 32
    → limit < 2 ^ 32
    → let entry = fill_descriptor base limit access sizebits in
      (base_of entry ≡ base)
      × (limit_of entry ≡ (scaled limit sizebits).0)
      × (access_of entry ≡ bit_or access 128 % 2 ^ 8)
      × (size_of entry ≡ (scaled limit sizebits).1 % 2 ^ 4)
unfolding fill_descriptor
fill_descriptor-fields base limit access sizebits hb hl =
    let l = (scaled limit sizebits).0 in
    let s = (scaled limit sizebits).1 in
    let low : l < 2 ^ 20 = scaled_low limit sizebits hl in
    let a = bit_or access 128 % 2 ^ 8 in
    let p0 = l % 2 ^ 16 + base % 2 ^ 16 * 2 ^ 16 in
    let high =
      joined (base / 2 ^ 16 % 2 ^ 8) a (l / 2 ^ 16 % 2 ^ 4) (s % 2 ^ 4) (base / 2 ^ 24 % 2 ^ 8)
        (omega arith) (omega arith) (omega arith) (omega arith) in
    let p1 =
      base / 2 ^ 24 % 2 ^ 8 * 2 ^ 24
      + s % 2 ^ 4 * 2 ^ 20
      + l / 2 ^ 16 % 2 ^ 4 * 2 ^ 16
      + a * 2 ^ 8
      + base / 2 ^ 16 % 2 ^ 8 in
    let whole : fill_descriptor base limit access sizebits ≡ p1 * 2 ^ 32 + p0 =
      ap (λ p. bit_or (p * 2 ^ 32) p0) high ∙ field-bit_or 32 p1 p0 (omega arith) in
    (
      ap base_of whole ∙ omega arith,
      ap limit_of whole ∙ omega arith,
      ap access_of whole ∙ omega arith,
      ap size_of whole ∙ omega arith,
    )

abbrev pub offset_of : ℕ → ℕ
offset_of entry = entry % 2 ^ 16 + entry / 2 ^ 48 % 2 ^ 16 * 2 ^ 16

abbrev pub selector_of : ℕ → ℕ
selector_of entry = entry / 2 ^ 16 % 2 ^ 16

-- What `fill_gate` builds is read back as it was given, with the bit "present" in the access byte.
pub fill_gate-fields :
    (offset selector access word_count : ℕ)
    → offset < 2 ^ 32
    → selector < 2 ^ 16
    → bit_or access 128 < 2 ^ 8
    → let entry = fill_gate offset selector access word_count in
      (offset_of entry ≡ offset)
      × (selector_of entry ≡ selector)
      × (access_of entry ≡ bit_or access 128)
unfolding fill_gate
fill_gate-fields offset selector access word_count ho hs ha =
    let a = bit_or access 128 in
    let c = word_count % 2 ^ 4 in
    let h = offset / 2 ^ 16 % 2 ^ 16 in
    let p0 = selector * 2 ^ 16 + offset % 2 ^ 16 in
    let p1 = h * 2 ^ 16 + (a * 2 ^ 8 + c) in
    let low : bit_or (offset % 2 ^ 16) (selector * 2 ^ 16) ≡ p0 =
      bit_or-field 16 selector (offset % 2 ^ 16) (omega arith) in
    let high : bit_or (bit_or c (a * 2 ^ 8)) (h * 2 ^ 16) ≡ p1 =
      ap (λ w. bit_or w (h * 2 ^ 16)) (bit_or-field 8 a c (omega arith))
      ∙ bit_or-field 16 h (a * 2 ^ 8 + c) (omega arith) in
    let whole : fill_gate offset selector access word_count ≡ p1 * 2 ^ 32 + p0 =
      ap (λ p. bit_or (p * 2 ^ 32) (bit_or (offset % 2 ^ 16) (selector * 2 ^ 16))) high
      ∙ ap (bit_or (p1 * 2 ^ 32)) low
      ∙ field-bit_or 32 p1 p0 (omega arith) in
    (
      ap offset_of whole ∙ omega arith,
      ap selector_of whole ∙ omega arith,
      ap access_of whole ∙ omega arith,
    )
