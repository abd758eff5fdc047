-- ===== src/Base62/Versions.antt =====
-- encoding/base62/base62.go: `_encodeV1` against `_encodeV2`.
use yellowstone_common.Common.{
  ℕ, zero, suc, ◌+◌, ◌-◌, ◌*◌, ◌/◌, ◌%◌, ◌≤◌, ◌<◌, ◌≡◌, refl, sym, ap, ◌∙◌, arith, ltb,
  if◌then◌else◌, Option, none, some, [], ◌∷◌, ◌++◌, Bytes, length, get_elem?, All, reverse_onto,
  get_elem?-reverse_onto, lt→ltb, le→ltb, reversed_twice, All-reverse_onto, length-reverse_onto,
}
use yellowstone_common.Common.Bits.{bit_or_fields, bit_or_comm, bit_and_mask}
use yellowstone_common.Common.Options.{◌>>=◌}
use native.Mathlib.Decide.{dec_lt}
use yellowstone_common.Base62.{
  Encoding, window, read_window, next, encode_v1, encode_v2, encode_bytes_v1, encode_bytes_v2,
}
use yellowstone_common.Base62.Digits.{
  IsByte, each_position, head_or_zero, six, bits_left, digit, digit_lem, digit_bounds, advance,
  behind, All-advance, compact_test, compact-digit, get6bits-six, advance_source, advance_left,
  encode_v2_end, encode_v2_round,
}

-- The positions of the first version: less than six bits left, six bits within a byte, or bits of
-- two bytes.
window_low : (p : ℕ) → p ≤ 6 → window p ≡ (0, 0, 0, p)
unfolding window
window_low p h = ground arith

window_one :
    (n pos : ℕ)
    → pos ≤ 2
    → 6 < 8 * n + 8 - pos
    → window (8 * n + 8 - pos) ≡ (8 * n + 2 - pos, n, 2 - pos, 6)
unfolding window
window_one n pos h k = ground arith

window_two :
    (m pos : ℕ)
    → 2 < pos
    → pos < 8
    → window (8 * suc m + 8 - pos) ≡ (8 * m + 10 - pos, m, 10 - pos, pos - 2)
unfolding window
window_two m pos h k = ground arith

read_low :
    (c : ℕ) (out : Bytes)
    → c < 256
    → (pos : ℕ) → pos < 8
    → 2 ≤ pos
    → read_window (c ∷ out) (0, 0, 0, 8 - pos) ≡ some (six c 0 pos, 0)
unfolding read_window
read_low c out h =
    each_position _ (ground arith) (ground arith) (ground (arith, bit_and_mask 6 (c / 4)))
      (ground (arith, bit_and_mask 5 (c / 8))) (ground (arith, bit_and_mask 4 (c / 16)))
      (ground (arith, bit_and_mask 3 (c / 32))) (ground (arith, bit_and_mask 2 (c / 64)))
      (ground (arith, bit_and_mask 1 (c / 128)))

read_one :
    (c d n p : ℕ) (src : Bytes)
    → get_elem? src n ≡ some c
    → c < 256
    → (pos : ℕ) → pos < 8
    → pos ≤ 2
    → read_window src (p, n, 2 - pos, 6) ≡ some (six c d pos, p)
unfolding read_window
read_one c d n p src e h =
    each_position _ (ground (arith, bit_and_mask 6 (c / 1)))
      (ground (arith, bit_and_mask 6 (c / 2))) (ground (arith, bit_and_mask 6 (c / 4)))
      (ground arith) (ground arith) (ground arith) (ground arith) (ground arith)

read_two :
    (c d m p : ℕ) (src : Bytes)
    → get_elem? src m ≡ some d
    → get_elem? src (m + 1) ≡ some c
    → 0 < p
    → c < 256
    → (pos : ℕ) → pos < 8
    → 2 < pos
    → read_window src (p, m, 10 - pos, pos - 2) ≡ some (six c d pos, p)
unfolding read_window
read_two c d m p src e f some_p h =
    each_position _ (ground arith) (ground arith) (ground arith)
      (ground (
        arith,
        bit_and_mask 1 (d / 1),
        bit_or_comm (d % 2 * 32 % 256) (c / 8),
        bit_or_fields 5 (c / 8) (d % 2),
      ))
      (ground (
        arith,
        bit_and_mask 2 (d / 1),
        bit_or_comm (d % 4 * 16 % 256) (c / 16),
        bit_or_fields 4 (c / 16) (d % 4),
      ))
      (ground (
        arith,
        bit_and_mask 3 (d / 1),
        bit_or_comm (d % 8 * 8 % 256) (c / 32),
        bit_or_fields 3 (c / 32) (d % 8),
      ))
      (ground (
        arith,
        bit_and_mask 4 (d / 1),
        bit_or_comm (d % 16 * 4 % 256) (c / 64),
        bit_or_fields 2 (c / 64) (d % 16),
      ))
      (ground (
        arith,
        bit_and_mask 5 (d / 1),
        bit_or_comm (d % 32 * 2 % 256) (c / 128),
        bit_or_fields 1 (c / 128) (d % 32),
      ))

-- The first version reads the same six bits as the second.
window-six :
    (c : ℕ) (cs out : Bytes) (pos : ℕ)
    → pos < 8
    → c < 256
    → read_window (reverse_onto (c ∷ cs) out) (window (bits_left cs pos))
      ≡ some (six c (head_or_zero cs) pos, bits_left cs pos - 6)
window-six c [] out pos lt h = elim (dec_lt pos 2) [
  | no wide ↦
      rw (window_low (bits_left [] pos) (omega arith)) (
        read_low c out h pos lt (omega arith) ∙ ap (λ (t : ℕ). some (six c 0 pos, t)) (omega arith))
  | yes tight ↦ rw (window_one 0 pos (omega arith) (omega arith)) (
      read_one c 0 0 (8 * 0 + 2 - pos) (c ∷ out) refl h pos lt (omega arith)
      ∙ ap (λ (t : ℕ). some (six c 0 pos, t)) (omega arith))
]
window-six c (d ∷ ds) out pos lt h =
    let m = length ds in
    let here : get_elem? (reverse_onto ds (d ∷ c ∷ out)) (m + 1) ≡ some c =
      get_elem?-reverse_onto ds (d ∷ c ∷ out) 1 in
    elim (dec_lt 2 pos) [
      | no tight ↦
          let at : m + 1 ≡ suc m = omega arith in
          rw (window_one (suc m) pos (omega arith) (omega arith)) (
            read_one c d (suc m) (8 * suc m + 2 - pos) (reverse_onto ds (d ∷ c ∷ out))
              (rw at at here) h pos lt (omega arith)
            ∙ ap (λ (t : ℕ). some (six c d pos, t)) (omega arith))
      | yes wide ↦ rw (window_two m pos wide lt) (
          read_two c d m (8 * m + 10 - pos) (reverse_onto ds (d ∷ c ∷ out))
            (ground (arith, get_elem?-reverse_onto ds (d ∷ c ∷ out) 0)) here (omega arith) h pos lt
            wide
          ∙ ap (λ (t : ℕ). some (six c d pos, t)) (omega arith))
    ]

-- With less than six bits left the value is below 32.
few_bits :
    (c : ℕ) (cs : Bytes) (pos : ℕ)
    → pos < 8
    → c < 256
    → bits_left cs pos < 6
    → six c (head_or_zero cs) pos ≤ 31
few_bits c [] pos lt h few =
    each_position (λ n. 8 - n < 6 → six c 0 n ≤ 31) (omega arith) (omega arith) (omega arith)
      (omega arith) (omega arith) (omega arith) (omega arith) (omega arith) pos lt (omega arith)
few_bits c (d ∷ ds) pos lt h few = absurd (omega arith)

-- So the first version steps to the same digit and the same position.
next-digit :
    (c : ℕ) (cs out : Bytes) (pos : ℕ)
    → pos < 8
    → c < 256
    → next (reverse_onto (c ∷ cs) out) (bits_left cs pos)
      ≡ some ((digit c cs pos).1, bits_left cs pos - (digit c cs pos).0)
unfolding next
next-digit c cs out pos lt h = rw (window-six c cs out pos lt h) (
    ground (
      arith,
      few_bits c cs pos lt h,
      compact_test (six c (head_or_zero cs) pos),
      bit_and_mask 5 (six c (head_or_zero cs) pos),
      digit_lem c cs pos,
    ))

encode_v1_round :
    (f : ℕ) (src table dst : Bytes) (p x q : ℕ)
    → next src p ≡ some (x, q)
    → encode_v1 (suc f) src table p dst ≡ (
        get_elem? table x >>= λ k.
        if ltb 0 q then encode_v1 f src table q (dst ++ (k ∷ [])) else some (dst ++ (k ∷ [])))
unfolding encode_v1
encode_v1_round f src table dst p x q e = rw e

bind_cong : (m : Option ℕ) (f g : ℕ → Option Bytes) → ((k : ℕ) → f k ≡ g k) → (m >>= f) ≡ (m >>= g)
bind_cong none f g h = refl
bind_cong (some k) f g h = h k

-- From a position `q` that `rs` leaves, the rest of the first version is the second's.
resume :
    (f : ℕ) (src table dst rs out : Bytes) (q pos : ℕ)
    → src ≡ reverse_onto rs out
    → q ≡ 8 * length rs - pos
    → pos < 8
    → ((c : ℕ) (cs : Bytes)
        → rs ≡ c ∷ cs
        → encode_v1 f src table q dst ≡ encode_v2 f src table q dst)
    → (if ltb 0 q then encode_v1 f src table q dst else some dst) ≡ encode_v2 f src table q dst
resume f src table dst [] out q pos e l lt ih =
    let ended : q ≡ 0 = omega arith in
    rw (le→ltb 0 q (omega arith)) (sym (encode_v2_end f src table dst q ended))
resume f src table dst (c ∷ cs) out q pos e l lt ih = rw (lt→ltb 0 q (omega arith)) (ih c cs refl)

loops_agree :
    (f : ℕ) (c : ℕ) (cs out table dst : Bytes) (pos : ℕ)
    → pos < 8
    → All IsByte (c ∷ cs)
    → bits_left cs pos ≤ f
    → encode_v1 f (reverse_onto (c ∷ cs) out) table (bits_left cs pos) dst
      ≡ encode_v2 f (reverse_onto (c ∷ cs) out) table (bits_left cs pos) dst
loops_agree zero c cs out table dst pos lt bytes fuel = absurd (omega arith)
loops_agree (suc f) c cs out table dst pos lt bytes fuel =
    let src = reverse_onto (c ∷ cs) out in
    let size = (digit c cs pos).0 in
    let x = (digit c cs pos).1 in
    let (below, wide, narrow) = digit_bounds c cs pos in
    let q = bits_left cs pos - size in
    let pos' = (pos + size) % 8 in
    let rest = advance c cs pos size in
    encode_v1_round f src table dst (bits_left cs pos) x q (next-digit c cs out pos lt bytes.0)
    ∙ bind_cong (get_elem? table x) _ _ (λ k.
      resume f src table (dst ++ (k ∷ [])) rest (behind c pos size out) q pos'
        (advance_source c cs out pos size) (advance_left c cs pos size lt narrow) (omega arith)
        λ c' cs' e.
          let place : q ≡ bits_left cs' pos' =
            omega (arith, advance_left c cs pos size lt narrow, ap (λ (l : Bytes). length l) e) in
          let moved : src ≡ reverse_onto (c' ∷ cs') (behind c pos size out) =
            advance_source c cs out pos size
            ∙ ap (λ (l : Bytes). reverse_onto l (behind c pos size out)) e in
          rw (moved, place)
            (loops_agree f c' cs' (behind c pos size out) table (dst ++ (k ∷ [])) pos' (omega arith)
              (rw e at (All-advance c cs pos size bytes)) (omega (arith, place))))
    ∙ sym (
        encode_v2_round f src table dst (bits_left cs pos) _ (omega arith)
          (get6bits-six c cs out pos bytes.0 lt)
        ∙ rw (compact-digit c cs pos))

same_bytes :
    (enc : Encoding) (src rs : Bytes)
    → All IsByte rs
    → src ≡ reverse_onto rs []
    → length src ≡ length rs
    → encode_bytes_v1 enc src ≡ encode_bytes_v2 enc src
unfolding encode_bytes_v1 encode_bytes_v2
same_bytes enc [] rs bytes e len = refl
same_bytes enc (a ∷ as') [] bytes e len = absurd (omega arith)
same_bytes enc (a ∷ as') (c ∷ cs) bytes e len =
    let whole : suc (length as') * 8 ≡ bits_left cs 0 = omega arith in
    rw (e, whole)
      (loops_agree (bits_left cs 0) c cs [] enc.encode_table [] 0 (omega arith) bytes (omega arith))

-- On every byte string the obsolete encoder and the one in use give the same result, whatever the
-- alphabet is.
pub encode_bytes_v1-encode_bytes_v2 :
    (enc : Encoding) (src : Bytes)
    → All IsByte src
    → encode_bytes_v1 enc src ≡ encode_bytes_v2 enc src
encode_bytes_v1-encode_bytes_v2 enc src bytes =
    same_bytes enc src (reverse_onto src []) (All-reverse_onto _ src [] bytes tt)
      (sym (reversed_twice src)) (omega (arith, length-reverse_onto src []))
