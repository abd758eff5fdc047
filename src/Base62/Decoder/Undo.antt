-- ===== src/Base62/Decoder/Undo.antt =====
-- Joining the digits again, without the buffer.
use yellowstone_common.Common.{
  ℕ, zero, suc, ◌+◌, ◌-◌, ◌*◌, ◌/◌, ◌%◌, ◌^◌, ◌≤◌, ◌<◌, bit_or, ◌≡◌, refl, ap, ◌∙◌, arith, ltb,
  ◌==◌, false, if◌then◌else◌, [], ◌∷◌, Bytes, length, All, reverse_onto, ◌⊎◌, inl, inr, lt→ltb,
  le→ltb,
}
use yellowstone_common.Common.Bits.{bit_or_fields}
use native.Mathlib.Decide.{dec_lt}
use native.Mathlib.Nat.{one-le-pow}
use yellowstone_common.Base62.Digits.{
  IsByte, each_position, head_or_zero, six, bits_left, digit, digits, digit_bounds, compact_test,
}
use yellowstone_common.Base62.Decoder.{len8, digit_width}

-- The bytes that the digits give, before those in `out`.
unfoldable pub undigits : Bytes → ℕ → ℕ → Bytes → Bytes
undigits [] pos b out = if ltb 0 pos then (b % 256) ∷ out else out
undigits (x ∷ xs) pos b out =
    let b' = bit_or b (x * 2 ^ pos) in
    let pos' = pos + digit_width (length xs == 0) x in
    if ltb pos' 8
    then undigits xs pos' b' out
    else undigits xs (pos' % 8) (b' / 2 ^ 8) ((b' % 256) ∷ out)

-- A digit of `size` bits on top of the `pos` bits that are there already.
abbrev joined : ℕ → ℕ → ℕ → ℕ → ℕ
joined c d pos size = c % 2 ^ pos + six c d pos % 2 ^ size * 2 ^ pos

record Joins (c d size pos : ℕ) : Type 0 where
  inside : pos + size < 8 → joined c d pos size ≡ c % 2 ^ (pos + size)
  full : 8 ≤ pos + size → joined c d pos size % 256 ≡ c
  over : 8 ≤ pos + size → joined c d pos size / 256 ≡ d % 2 ^ (pos + size - 8)

Joins-five : (c d : ℕ) → c < 256 → d < 256 → (pos : ℕ) → pos < 8 → Joins c d 5 pos
Joins-five c d h k =
    each_position _ (omega arith) (omega arith) (omega arith) (omega arith) (omega arith)
      (omega arith) (omega arith) (omega arith)

Joins-six : (c d : ℕ) → c < 256 → d < 256 → (pos : ℕ) → pos < 8 → Joins c d 6 pos
Joins-six c d h k =
    each_position _ (omega arith) (omega arith) (omega arith) (omega arith) (omega arith)
      (omega arith) (omega arith) (omega arith)

-- The last digit holds all bits that are left of `c`.
record Ends (c pos : ℕ) : Type 0 where
  whole : c % 2 ^ pos + c / 2 ^ pos * 2 ^ pos ≡ c
  small : 2 ≤ pos → c / 2 ^ pos < 64
  fits : pos + len8 (c / 2 ^ pos) ≤ 8

ends_lem : (c : ℕ) → c < 256 → (pos : ℕ) → pos < 8 → Ends c pos
unfolding len8
ends_lem c h =
    each_position _ (ground arith) (ground arith) (ground arith) (ground arith) (ground arith)
      (ground arith) (ground arith) (ground arith)

join_or : (c pos x : ℕ) → bit_or (c % 2 ^ pos) (x * 2 ^ pos) ≡ c % 2 ^ pos + x * 2 ^ pos
join_or c pos x = bit_or_fields pos (c % 2 ^ pos) x (omega (arith, one-le-pow pos 2 (omega arith)))

-- A digit and its width, as the decoder reads them.
record Reads (c : ℕ) (cs : Bytes) (pos : ℕ) : Type 0 where
  value : (digit c cs pos).1 ≡ six c (head_or_zero cs) pos % 2 ^ (digit c cs pos).0
  width :
      ((digit c cs pos).0 ≡ 6 → 6 < bits_left cs pos)
      → digit_width false (digit c cs pos).1 ≡ (digit c cs pos).0

reads_lem : (c : ℕ) (cs : Bytes) (pos : ℕ) → Reads c cs pos
unfolding digit digit_width
reads_lem c cs pos = record {
  value = ground arith;
  width = ground (arith, compact_test (digit c cs pos).1);
}

Joins_lem :
    (c d size pos : ℕ) → c < 256 → d < 256 → pos < 8 → 5 ≤ size → size ≤ 6 → Joins c d size pos
Joins_lem c d size pos h k lt wide narrow =
    let cases : (size ≡ 5) ⊎ (size ≡ 6) = omega arith in
    elim cases [
      | inl e ↦ rw e (Joins-five c d h k pos lt)
      | inr e ↦ rw e (Joins-six c d h k pos lt)
    ]

digits_nil : (f pos : ℕ) → digits f pos [] ≡ []
unfolding digits
digits_nil zero pos = refl
digits_nil (suc f) pos = refl

digits_more : (f pos c : ℕ) (cs : Bytes) → 0 < f → (length (digits f pos (c ∷ cs)) == 0) ≡ false
unfolding digits
digits_more zero pos c cs h = absurd (omega arith)
digits_more (suc f) pos c cs h = ground arith

-- A round that leaves bits of the same byte, one that completes the byte, and the last.
undigits_inside :
    (x : ℕ) (xs : Bytes) (c pos size : ℕ) (out : Bytes)
    → (length xs == 0) ≡ false
    → digit_width false x ≡ size
    → pos + size < 8
    → c % 2 ^ pos + x * 2 ^ pos ≡ c % 2 ^ (pos + size)
    → undigits (x ∷ xs) pos (c % 2 ^ pos) out ≡ undigits xs (pos + size) (c % 2 ^ (pos + size)) out
unfolding undigits
undigits_inside x xs c pos size out more width room value =
    rw (more, width, lt→ltb (pos + size) 8 room, join_or c pos x, value)

undigits_full :
    (x : ℕ) (xs : Bytes) (c d pos size : ℕ) (out : Bytes)
    → (length xs == 0) ≡ false
    → digit_width false x ≡ size
    → 8 ≤ pos + size
    → (c % 2 ^ pos + x * 2 ^ pos) % 256 ≡ c
    → (c % 2 ^ pos + x * 2 ^ pos) / 2 ^ 8 ≡ d
    → undigits (x ∷ xs) pos (c % 2 ^ pos) out ≡ undigits xs ((pos + size) % 8) d (c ∷ out)
unfolding undigits
undigits_full x xs c d pos size out more width room low high =
    rw (more, width, le→ltb (pos + size) 8 room, join_or c pos x, low, high)

undigits_last :
    (c pos : ℕ) (out : Bytes)
    → c < 256
    → pos < 8
    → 2 ≤ pos
    → undigits (c / 2 ^ pos ∷ []) pos (c % 2 ^ pos) out ≡ c ∷ out
unfolding undigits digit_width
undigits_last c pos out h lt two =
    let e = ends_lem c h pos lt in ground (arith, join_or c pos (c / 2 ^ pos), e.whole, e.fits)

head_byte : (cs : Bytes) → All IsByte cs → head_or_zero cs < 256
head_byte [] h = omega arith
head_byte (c ∷ cs) h = h.0

-- What the induction below claims of `c ∷ cs`.
abbrev Undone : ℕ → ℕ → Bytes → ℕ → Bytes → Type 0
Undone f c cs pos out =
    undigits (digits f pos (c ∷ cs)) pos (c % 2 ^ pos) out ≡ reverse_onto (c ∷ cs) out

module _ (f c : ℕ) (cs out : Bytes) (pos : ℕ) (lt : pos < 8) (bytes : All IsByte (c ∷ cs))
    (fuel : bits_left cs pos ≤ suc f) where
  same_byte :
      pos + (digit c cs pos).0 < 8
      → (pos + (digit c cs pos).0 < 8 → Undone f c cs (pos + (digit c cs pos).0) out)
      → Undone (suc f) c cs pos out
  unfolding digits
  same_byte room ih =
      let size = (digit c cs pos).0 in
      let (below, wide, narrow) = digit_bounds c cs pos in
      let r = reads_lem c cs pos in
      let j =
        Joins_lem c (head_or_zero cs) size pos bytes.0 (head_byte cs bytes.1) lt wide narrow in
      let start : (pos + size) % 8 ≡ pos + size = omega arith in
      rw (lt→ltb (pos + size) 8 room, start)
        (undigits_inside (digit c cs pos).1 (digits f (pos + size) (c ∷ cs)) c pos size out
            (digits_more f (pos + size) c cs (omega arith)) (r.width (λ e. omega arith)) room
            (ap (λ (t : ℕ). c % 2 ^ pos + t * 2 ^ pos) r.value ∙ j.inside room)
          ∙ ih room)

next_byte :
    (f c d : ℕ) (ds out : Bytes) (pos : ℕ)
    → pos < 8
    → All IsByte (c ∷ d ∷ ds)
    → bits_left (d ∷ ds) pos ≤ suc f
    → 8 ≤ pos + (digit c (d ∷ ds) pos).0
    → Undone f d ds ((pos + (digit c (d ∷ ds) pos).0) % 8) (c ∷ out)
    → Undone (suc f) c (d ∷ ds) pos out
unfolding digits
next_byte f c d ds out pos lt bytes fuel room ih =
    let size = (digit c (d ∷ ds) pos).0 in
    let (below, wide, narrow) = digit_bounds c (d ∷ ds) pos in
    let r = reads_lem c (d ∷ ds) pos in
    let j = Joins_lem c d size pos bytes.0 bytes.1.0 lt wide narrow in
    let start : pos + size - 8 ≡ (pos + size) % 8 = omega arith in
    let value : c % 2 ^ pos + (digit c (d ∷ ds) pos).1 * 2 ^ pos ≡ joined c d pos size =
      ap (λ (t : ℕ). c % 2 ^ pos + t * 2 ^ pos) r.value in
    rw (le→ltb (pos + size) 8 room) (
      undigits_full (digit c (d ∷ ds) pos).1 (digits f ((pos + size) % 8) (d ∷ ds)) c
        (d % 2 ^ ((pos + size) % 8)) pos size out (digits_more f _ d ds (omega arith))
        (r.width (λ e. omega arith)) room (ap (λ (t : ℕ). t % 256) value ∙ j.full room)
        (ap (λ (t : ℕ). t / 256) value ∙ j.over room ∙ ap (λ (t : ℕ). d % 2 ^ t) start)
      ∙ ih)

last_digit :
    (c : ℕ)
    → c < 256
    → (pos : ℕ) → pos < 8
    → 8 ≤ pos + (digit c [] pos).0
    → (digit c [] pos ≡ (6, c / 2 ^ pos)) × (2 ≤ pos)
unfolding digit
last_digit c h =
    each_position _ (ground arith) (ground arith) (ground arith) (ground arith) (ground arith)
      (ground arith) (ground arith) (ground arith)

last_byte :
    (f c : ℕ) (out : Bytes) (pos : ℕ)
    → pos < 8
    → c < 256
    → 8 ≤ pos + (digit c [] pos).0
    → Undone (suc f) c [] pos out
unfolding digits
last_byte f c out pos lt h room =
    let (value, two) = last_digit c h pos lt room in
    rw (le→ltb _ 8 room, digits_nil, value) (undigits_last c pos out h lt two)

-- The decoder undoes `digits`: from `pos` bits of the first byte it rebuilds all bytes.
pub undigits-digits :
    (f c : ℕ) (cs out : Bytes) (pos : ℕ)
    → pos < 8
    → All IsByte (c ∷ cs)
    → bits_left cs pos ≤ f
    → Undone f c cs pos out
undigits-digits zero c cs out pos lt bytes fuel = absurd (omega arith)
undigits-digits (suc f) c [] out pos lt bytes fuel = elim (dec_lt (pos + (digit c [] pos).0) 8) [
  | yes room ↦
      same_byte f c [] out pos lt bytes fuel room
        (λ h. undigits-digits f c [] out _ h bytes (omega (arith, digit_bounds c [] pos)))
  | no room ↦ last_byte f c out pos lt bytes.0 (omega arith)
]
undigits-digits (suc f) c (d ∷ ds) out pos lt bytes fuel =
    elim (dec_lt (pos + (digit c (d ∷ ds) pos).0) 8) [
      | yes room ↦ same_byte f c (d ∷ ds) out pos lt bytes fuel room (λ h.
          undigits-digits f c (d ∷ ds) out _ h bytes (omega (arith, digit_bounds c (d ∷ ds) pos)))
      | no room ↦ next_byte f c d ds out pos lt bytes fuel (omega arith) (
          undigits-digits f d ds (c ∷ out) _ (omega arith) bytes.1
            (omega (arith, digit_bounds c (d ∷ ds) pos)))
    ]
