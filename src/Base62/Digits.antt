-- ===== src/Base62/Digits.antt =====
-- The digits that the encoders write, described on the bytes in reverse: `pos` bits of the first of
-- them are written already.
use yellowstone_common.Common.{
  ℕ, zero, suc, ◌+◌, ◌-◌, ◌*◌, ◌/◌, ◌%◌, ◌^◌, ◌≤◌, ◌<◌, bit_and, bit_or, ◌≡◌, refl, sym, ap, ◌∙◌,
  arith, ltb, leb, ◌==◌, true, ◌||◌, if◌then◌else◌, Option, none, some, [], ◌∷◌, ◌++◌, Bytes,
  length, get_elem?, All, reverse_onto, get_elem?-reverse_onto,
}
use yellowstone_common.Common.Bits.{bit_or_fields, bit_and_mask, equal_below, equal_below_sound}
use mathlib.Core.List.{append-nil, append_assoc}
use yellowstone_common.Base62.{compact_mask, six_at, get6bits, compact, encode_v2}
use yellowstone_common.Common.Options.{◌>>=◌}

abbrev pub IsByte : ℕ → Type 0
IsByte b = b < 256

-- To prove something of each bit position of a byte.
pub each_position {ℓ} :
    (P : ℕ → Type ℓ) → P 0 → P 1 → P 2 → P 3 → P 4 → P 5 → P 6 → P 7 → (n : ℕ) → n < 8 → P n
each_position P a b c d e f g h zero lt = a
each_position P a b c d e f g h (suc zero) lt = b
each_position P a b c d e f g h (suc (suc zero)) lt = c
each_position P a b c d e f g h (suc (suc (suc zero))) lt = d
each_position P a b c d e f g h (suc (suc (suc (suc zero)))) lt = e
each_position P a b c d e f g h (suc (suc (suc (suc (suc zero))))) lt = f
each_position P a b c d e f g h (suc (suc (suc (suc (suc (suc zero)))))) lt = g
each_position P a b c d e f g h (suc (suc (suc (suc (suc (suc (suc zero))))))) lt = h
each_position P a b c d e f g h (suc (suc (suc (suc (suc (suc (suc (suc n)))))))) lt =
    absurd (omega arith)

abbrev pub head_or_zero : Bytes → ℕ
head_or_zero [] = 0
head_or_zero (c ∷ cs) = c

-- The six bits above the `pos` lowest of the bytes `c` and, above it, `d`.
abbrev pub six : ℕ → ℕ → ℕ → ℕ
six c d pos = (c / 2 ^ pos + d * 2 ^ (8 - pos)) % 64

-- The bits of `c ∷ cs` that are left.
abbrev pub bits_left : Bytes → ℕ → ℕ
bits_left cs pos = 8 * length cs + 8 - pos

-- The width of the next digit, and the digit.
unfoldable pub digit : ℕ → Bytes → ℕ → ℕ × ℕ
digit c cs pos =
    let b = six c (head_or_zero cs) pos in
    if leb 30 (b % 32)
    then ((if ltb 6 (bits_left cs pos) || ltb 31 b then 5 else 6), b % 32)
    else (6, b)

-- The bytes that are left behind a digit of the given width.
abbrev pub advance : ℕ → Bytes → ℕ → ℕ → Bytes
advance c cs pos size = if ltb (pos + size) 8 then c ∷ cs else cs

unfoldable pub digits : ℕ → ℕ → Bytes → Bytes
unfolding digit
digits zero pos rs = []
digits (suc f) pos [] = []
digits (suc f) pos (c ∷ cs) =
    let (size, x) = digit c cs pos in x ∷ digits f ((pos + size) % 8) (advance c cs pos size)

pub digit_lem :
    (c : ℕ) (cs : Bytes) (pos : ℕ)
    → digit c cs pos ≡ (
        if leb 30 (six c (head_or_zero cs) pos % 32)
        then (
          (if ltb 6 (bits_left cs pos) || ltb 31 (six c (head_or_zero cs) pos) then 5 else 6),
          six c (head_or_zero cs) pos % 32,
        )
        else (6, six c (head_or_zero cs) pos))
unfolding digit
digit_lem c cs pos = refl

-- A digit is below 62 and takes five or six bits.
pub digit_bounds :
    (c : ℕ) (cs : Bytes) (pos : ℕ)
    → ((digit c cs pos).1 < 62) × (5 ≤ (digit c cs pos).0) × ((digit c cs pos).0 ≤ 6)
unfolding digit
digit_bounds c cs pos = ground arith

-- The test against `compactMask` asks for bits 1 to 4.
pub compact_test : (b : ℕ) → b < 256 → (bit_and b compact_mask == compact_mask) ≡ leb 30 (b % 32)
unfolding equal_below
compact_test b h = ground (arith, equal_below_sound masked high 256 table b)
  where
    masked : ℕ → ℕ
    masked b = if bit_and b compact_mask == compact_mask then 1 else 0

    high : ℕ → ℕ
    high b = if leb 30 (b % 32) then 1 else 0

    table : equal_below masked high 256 ≡ true
    table = refl

pub compact-digit :
    (c : ℕ) (cs : Bytes) (pos : ℕ)
    → compact (ltb 6 (bits_left cs pos)) (six c (head_or_zero cs) pos) ≡ digit c cs pos
unfolding compact digit
compact-digit c cs pos = ground (
  arith,
  compact_test (six c (head_or_zero cs) pos),
  bit_and_mask 5 (six c (head_or_zero cs) pos),
)

-- The bit operations of `get6bits` at one position.
six_lem :
    (c d : ℕ)
    → c < 256
    → (pos : ℕ) → pos < 8
    → bit_and
        (if ltb (8 - pos) 6 then bit_or (c / 2 ^ pos) (d * 2 ^ (8 - pos) % 256) else c / 2 ^ pos)
        0x3F
      ≡ six c d pos
six_lem c d h =
    each_position _ (ground (arith, bit_and_mask 6 (c / 1)))
      (ground (arith, bit_and_mask 6 (c / 2))) (ground (arith, bit_and_mask 6 (c / 4)))
      (ground
        (arith, bit_and_mask 6 (bit_or (c / 8) (d * 32 % 256)), bit_or_fields 5 (c / 8) (d % 8)))
      (ground
        (arith, bit_and_mask 6 (bit_or (c / 16) (d * 16 % 256)), bit_or_fields 4 (c / 16) (d % 16)))
      (ground
        (arith, bit_and_mask 6 (bit_or (c / 32) (d * 8 % 256)), bit_or_fields 3 (c / 32) (d % 32)))
      (ground
        (arith, bit_and_mask 6 (bit_or (c / 64) (d * 4 % 256)), bit_or_fields 2 (c / 64) (d % 64)))
      (ground (
        arith,
        bit_and_mask 6 (bit_or (c / 128) (d * 2 % 256)),
        bit_or_fields 1 (c / 128) (d % 128),
      ))

back : (c pos : ℕ) → pos < 8 → c / 2 ^ (8 - (8 - pos)) ≡ c / 2 ^ pos
back c pos lt = ap (λ (t : ℕ). c / 2 ^ t) (omega arith)

-- The bytes that are left stand at the front of the source, and `out` behind them.
six_at-six :
    (c : ℕ) (cs out : Bytes) (pos : ℕ)
    → c < 256
    → pos < 8
    → six_at (reverse_onto (c ∷ cs) out) (length cs) (8 - pos) ≡ some (six c (head_or_zero cs) pos)
unfolding six_at
six_at-six c [] out pos h lt = ground (arith, back c pos lt, bit_and_mask 6 (c / 2 ^ pos))
six_at-six c (d ∷ ds) out pos h lt = ground (
  arith,
  back c pos lt,
  get_elem?-reverse_onto (d ∷ ds) (c ∷ out) 0,
  get_elem?-reverse_onto ds (d ∷ c ∷ out) 0,
  six_lem c d h pos lt,
)

pub get6bits-six :
    (c : ℕ) (cs out : Bytes) (pos : ℕ)
    → c < 256
    → pos < 8
    → get6bits (reverse_onto (c ∷ cs) out) (bits_left cs pos) ≡ some (six c (head_or_zero cs) pos)
unfolding get6bits
get6bits-six c cs out pos h lt =
    ground (arith, bit_and_mask 3 (bits_left cs pos), six_at-six c cs out pos)

-- One round of the encoder.
pub encode_v2_round :
    (f : ℕ) (src table dst : Bytes) (p b : ℕ)
    → 0 < p
    → get6bits src p ≡ some b
    → encode_v2 (suc f) src table p dst ≡ (
        get_elem? table (compact (ltb 6 p) b).1 >>= λ c.
        encode_v2 f src table (p - (compact (ltb 6 p) b).0) (dst ++ (c ∷ [])))
unfolding encode_v2
encode_v2_round f src table dst zero b h e = absurd (omega arith)
encode_v2_round f src table dst (suc p) b h e = rw e

-- The characters of digits, if each is in the table.
unfoldable pub characters : Bytes → Bytes → Option Bytes
characters table [] = some []
characters table (x ∷ xs) = get_elem? table x >>= λ c. characters table xs >>= λ cs. some (c ∷ cs)

-- What is behind the bytes that are left.
abbrev pub behind : ℕ → ℕ → ℕ → Bytes → Bytes
behind c pos size out = if ltb (pos + size) 8 then out else c ∷ out

pub advance_source :
    (c : ℕ) (cs out : Bytes) (pos size : ℕ)
    → reverse_onto (c ∷ cs) out ≡ reverse_onto (advance c cs pos size) (behind c pos size out)
advance_source c cs out pos size = ground arith

pub advance_left :
    (c : ℕ) (cs : Bytes) (pos size : ℕ)
    → pos < 8
    → size ≤ 6
    → bits_left cs pos - size ≡ 8 * length (advance c cs pos size) - (pos + size) % 8
advance_left c cs pos size h k = ground arith

pub All-advance :
    (c : ℕ) (cs : Bytes) (pos size : ℕ) → All IsByte (c ∷ cs) → All IsByte (advance c cs pos size)
All-advance c cs pos size h = ground arith

pub encode_v2_end :
    (f : ℕ) (src table dst : Bytes) (p : ℕ) → p ≡ 0 → encode_v2 f src table p dst ≡ some dst
unfolding encode_v2
encode_v2_end zero src table dst zero e = refl
encode_v2_end (suc f) src table dst zero e = refl
encode_v2_end f src table dst (suc p) e = absurd (omega arith)

-- To append one character and then the rest is to append them at once.
bind_characters :
    (k : Option ℕ) (rest : Bytes → Option Bytes) (more : Option Bytes) (dst : Bytes)
    → ((d : Bytes) → rest d ≡ (more >>= λ cs. some (d ++ cs)))
    → (k >>= λ c. rest (dst ++ (c ∷ [])))
      ≡ ((k >>= λ c. more >>= λ cs. some (c ∷ cs)) >>= λ cs. some (dst ++ cs))
bind_characters none rest more dst h = refl
bind_characters (some c) rest none dst h = h (dst ++ (c ∷ []))
bind_characters (some c) rest (some cs) dst h =
    h (dst ++ (c ∷ [])) ∙ ap some (append_assoc dst (c ∷ []) cs)

-- With a round for each bit, the encoder appends the characters of the digits.
pub encode_v2-digits :
    (f : ℕ) (rs out table dst : Bytes) (pos : ℕ)
    → pos < 8
    → All IsByte rs
    → 8 * length rs - pos ≤ f
    → encode_v2 f (reverse_onto rs out) table (8 * length rs - pos) dst
      ≡ (characters table (digits f pos rs) >>= λ cs. some (dst ++ cs))
unfolding digits characters
encode_v2-digits zero [] out table dst pos lt bytes fuel =
    encode_v2_end zero out table dst (0 - pos) (omega arith) ∙ ap some (sym (append-nil dst))
encode_v2-digits (suc f) [] out table dst pos lt bytes fuel =
    encode_v2_end (suc f) out table dst (0 - pos) (omega arith) ∙ ap some (sym (append-nil dst))
encode_v2-digits zero (c ∷ cs) out table dst pos lt bytes fuel = absurd (omega arith)
encode_v2-digits (suc f) (c ∷ cs) out table dst pos lt bytes fuel =
    let size = (digit c cs pos).0 in
    let (below, wide, narrow) = digit_bounds c cs pos in
    let position : 8 * length (c ∷ cs) - pos ≡ bits_left cs pos = omega arith in
    rw position (
      encode_v2_round f (reverse_onto (c ∷ cs) out) table dst (bits_left cs pos) _ (omega arith)
        (get6bits-six c cs out pos bytes.0 lt)
      ∙ rw (compact-digit c cs pos) (
          rw (advance_left c cs pos size lt narrow, advance_source c cs out pos size)
            (bind_characters (get_elem? table (digit c cs pos).1) _ _ dst λ d.
              encode_v2-digits f (advance c cs pos size) (behind c pos size out) table d
                ((pos + size) % 8) (omega arith) (All-advance c cs pos size bytes)
                (omega (arith, advance_left c cs pos size lt narrow)))))

pub All-digits : (f pos : ℕ) (rs : Bytes) → All (λ x. x < 62) (digits f pos rs)
unfolding digits
All-digits zero pos rs = tt
All-digits (suc f) pos [] = tt
All-digits (suc f) pos (c ∷ cs) = ((digit_bounds c cs pos).0, All-digits f _ _)
