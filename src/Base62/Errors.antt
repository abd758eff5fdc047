-- ===== src/Base62/Errors.antt =====
-- encoding/base62/base62.go: the decoder on any input.
use yellowstone_common.Common.{
  ℕ, suc, ◌+◌, ◌-◌, ◌*◌, ◌/◌, ◌%◌, ◌^◌, ◌≤◌, ◌<◌, bit_or, ◌≡◌, refl, ap, ◌∙◌, arith, ◌==◌, false,
  [], ◌∷◌, ◌++◌, inl, inr, Bytes, length, All, some, get_elem?, set, length-append, length-set,
  get_elem?_total, is_empty, get_elem?_bound,
}
use yellowstone_common.Common.Outcome.{ok, err}
use yellowstone_common.Base62.{Encoding}
use yellowstone_common.Base62.Tables.{IsValid}
use yellowstone_common.Base62.Digits.{IsByte}
use yellowstone_common.Base62.Decoder.{corrupt_input, decode, decode_loop, digit_width, zeros}
use yellowstone_common.Base62.Decoder.Undo.{undigits}
use yellowstone_common.Base62.Decoder.Buffer.{Spells, width-le, round_stay, round_emit}
use yellowstone_common.Base62.RoundTrip.{decode-undigits, length-zeros}
use native.Mathlib.Decide.{dec_lt}

bad_byte :
    (table : Bytes) (i c idx pos b : ℕ) (cs dst : Bytes)
    → get_elem? table c ≡ some 0xFF
    → decode_loop table i (c ∷ cs) idx dst pos b ≡ err (corrupt_input i)
unfolding decode_loop
bad_byte table i c idx pos b cs dst e = rw e

-- The loop passes over good characters and stops at the first bad one.
pub loop_corrupt :
    (table front xs : Bytes) (c : ℕ) (rest : Bytes) (i idx : ℕ) (dst : Bytes) (pos b : ℕ)
    → Spells table front xs
    → get_elem? table c ≡ some 0xFF
    → pos < 8
    → pos + 6 * length front ≤ 8 * idx
    → idx ≤ length dst
    → decode_loop table i (front ++ (c ∷ rest)) idx dst pos b
      ≡ err (corrupt_input (i + length front))
loop_corrupt table [] [] c rest i idx dst pos b spells bad lt room k =
    bad_byte table i c idx pos b rest dst bad ∙ ap (λ (t : ℕ). err (corrupt_input t)) (omega arith)
loop_corrupt table [] (x ∷ xs) c rest i idx dst pos b spells bad lt room k = absurd spells
loop_corrupt table (d ∷ ds) [] c rest i idx dst pos b spells bad lt room k = absurd spells
loop_corrupt table (d ∷ ds) (x ∷ xs) c rest i idx dst pos b (known, small, spells) bad lt room k =
    let cs : Bytes = ds ++ (c ∷ rest) in
    let w : ℕ = digit_width (length cs == 0) x in
    let narrow : w ≤ 6 = width-le (length cs == 0) x small in
    let b' : ℕ = bit_or b (x * 2 ^ pos) in
    let place : i + 1 + length ds ≡ i + length (d ∷ ds) = omega arith in
    elim (dec_lt (pos + w) 8) [
      | yes h ↦
          round_stay table i d x idx pos b cs dst known small lt h
          ∙ loop_corrupt table ds xs c rest (i + 1) idx dst (pos + w) b' spells bad h (omega arith)
              k
          ∙ ap (λ (t : ℕ). err (corrupt_input t)) place
      | no h ↦
          let some_room : 0 < idx = omega arith in
          let dst' : Bytes = set dst (idx - 1) (b' % 256) in
          round_emit table i d x idx pos b cs dst known small lt (omega arith) some_room k
          ∙ loop_corrupt table ds xs c rest (i + 1) (idx - 1) dst' ((pos + w) % 8) (b' / 2 ^ 8)
              spells bad (omega arith) (omega arith)
              (omega (arith, length-set dst (idx - 1) (b' % 256)))
          ∙ ap (λ (t : ℕ). err (corrupt_input t)) place
    ]

decode_corrupt :
    (enc : Encoding) (front xs : Bytes) (c : ℕ) (rest : Bytes)
    → Spells enc.decode_map front xs
    → get_elem? enc.decode_map c ≡ some 0xFF
    → decode enc (front ++ (c ∷ rest)) ≡ err (corrupt_input (length front))
unfolding decode
decode_corrupt enc front xs c rest spells bad =
    let src : Bytes = front ++ (c ∷ rest) in
    let n : ℕ = length src * 6 / 8 + 1 in
    let dst : Bytes = zeros n in
    let size : length dst ≡ n = length-zeros n in
    let total : length src ≡ length front + suc (length rest) = length-append front (c ∷ rest) in
    rw
      (
        not_empty front c rest,
        loop_corrupt enc.decode_map front xs c rest 0 n dst 0 0 spells bad (omega arith)
            (omega arith) (omega arith),
      )
      (ap (λ (t : ℕ). err (corrupt_input t)) (omega arith))
  where
    not_empty : (front : Bytes) (c : ℕ) (rest : Bytes) → is_empty (front ++ (c ∷ rest)) ≡ false
    not_empty [] c rest = refl
    not_empty (d ∷ ds) c rest = refl

-- A byte of the alphabet.
abbrev pub InAlphabet : Encoding → ℕ → Type 0
InAlphabet enc c = (k : ℕ) × (get_elem? enc.encode_table k ≡ some c)

-- What `Decode` does on a source.
pub data Decodes (enc : Encoding) (src : Bytes) : Type 0 where
  all_good :
      (xs : Bytes)
      → All (InAlphabet enc) src
      → Spells enc.decode_map src xs
      → decode enc src ≡ ok (undigits xs 0 0 [])
      → Decodes enc src
  first_bad :
      (front : Bytes) (c : ℕ) (rest : Bytes)
      → src ≡ front ++ (c ∷ rest)
      → (xs : Bytes) → All (InAlphabet enc) front
      → Spells enc.decode_map front xs
      → get_elem? enc.decode_map c ≡ some 0xFF
      → ¬ InAlphabet enc c
      → decode enc src ≡ err (corrupt_input (length front))
      → Decodes enc src

-- The longest good part of a source.
data Split (enc : Encoding) (src : Bytes) : Type 0 where
  whole : (xs : Bytes) → All (InAlphabet enc) src → Spells enc.decode_map src xs → Split enc src
  part :
      (front xs : Bytes) (c : ℕ) (rest : Bytes)
      → src ≡ front ++ (c ∷ rest)
      → All (InAlphabet enc) front
      → Spells enc.decode_map front xs
      → get_elem? enc.decode_map c ≡ some 0xFF
      → Split enc src

split : (enc : Encoding) (src : Bytes) → IsValid enc → All IsByte src → Split enc src
split enc [] v bytes = whole [] tt tt
split enc (c ∷ cs) v (byte, bytes) =
    let (x, found) = get_elem?_total enc.decode_map c (rw v.decodes byte) in
    elim (v.known c x found) [
      | inl bad ↦ part [] [] c cs refl tt tt (found ∙ ap some bad)
      | inr (small, at) ↦ elim (split enc cs v bytes) [
        | whole xs good spells ↦ whole (x ∷ xs) ((x, at), good) (found, small, spells)
        | part front xs d rest e good spells bad ↦
            part (c ∷ front) (x ∷ xs) d rest (ap (◌∷◌ c) e) ((x, at), good) (found, small, spells)
              bad
      ]
    ]

-- With a valid encoding, `Decode` never panics on bytes: either all of them are in the alphabet and
-- it joins their digits, or it reports the position of the first that is not.
pub decode_total : (enc : Encoding) (src : Bytes) → IsValid enc → All IsByte src → Decodes enc src
decode_total enc src v bytes = elim (split enc src v bytes) [
  | whole xs good spells ↦ all_good xs good spells (decode-undigits enc src xs spells)
  | part front xs c rest e good spells bad ↦
      first_bad front c rest e xs good spells bad
        (λ (k, at).
          absurd
            (ground (arith, v.inverse k c at, get_elem?_bound enc.encode_table k c at, v.encodes)))
        (ap (decode enc) e ∙ decode_corrupt enc front xs c rest spells bad)
]
