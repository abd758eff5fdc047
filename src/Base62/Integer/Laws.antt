-- ===== src/Base62/Integer/Laws.antt =====
-- encoding/base62/integer.go: writing integers and reading them.
use yellowstone_common.Common.{
  ℕ, zero, suc, ◌+◌, ◌*◌, ◌/◌, ◌%◌, ◌^◌, ◌≤◌, ◌<◌, ◌≡◌, refl, sym, ap, ◌∙◌, arith, ◌==◌, false,
  some, ◌⊎◌, inl, inr, [], ◌∷◌, ◌++◌, Option, Bytes, length, All, get_elem?, set, drop, drop-set,
  length-set, length-append, lt→ltb, get_elem?_total,
}
use yellowstone_common.Common.Outcome.{ok, err}
use yellowstone_common.Common.Int.{ℤ, IsI64, to_u64, to_u64-lt, to_i64-to_u64}
use yellowstone_common.Base62.{Encoding}
use yellowstone_common.Base62.Tables.{IsValid}
use yellowstone_common.Base62.Decoder.{corrupt_input, zeros}
use yellowstone_common.Base62.Decoder.Buffer.{Spells}
use yellowstone_common.Base62.Errors.{InAlphabet, all_good, first_bad, decode_total}
use yellowstone_common.Base62.Digits.{IsByte}
use yellowstone_common.Base62.Integer.{
  append_loop, append_uint, append_int, parse_loop, parse_uint, parse_int,
}
use mathlib.Core.List.{append-nil, append_assoc}
use native.Mathlib.Nat.{pow-suc}

-- `text` is the number `n`, read from the start of an input.
abbrev Parses : Encoding → Bytes → ℕ → Type 0
Parses enc text n =
    (rest : Bytes)
    → parse_loop enc.decode_map 0 (text ++ rest) 0 ≡ parse_loop enc.decode_map (length text) rest n

-- What the loop of `AppendUint` leaves: the digits of `n` before what the buffer held.
record Writes (enc : Encoding) (n i : ℕ) (buf : Bytes) (r : Option (ℕ × Bytes)) : Type 0 where
  at : ℕ
  after : Bytes
  text : Bytes
  run : r ≡ some (at, after)
  result : drop at after ≡ text ++ drop i buf
  meaning : Parses enc text n

-- One more digit at the end.
parse_digit :
    (enc : Encoding) (text : Bytes) (n c : ℕ)
    → n < 2 ^ 64
    → get_elem? enc.decode_map c ≡ some (n % 62)
    → Parses enc text (n / 62)
    → Parses enc (text ++ (c ∷ [])) n
unfolding parse_loop
parse_digit enc text n c small known h rest =
    let place : length text + 1 ≡ length (text ++ (c ∷ [])) =
      omega (arith, length-append text (c ∷ [])) in
    let value : (n / 62 * 62 + n % 62) % 2 ^ 64 ≡ n = omega arith in
    let digit : (n % 62 == 0xFF) ≡ false = ground arith in
    rw (append_assoc text (c ∷ []) rest) (h (c ∷ rest) ∙ rw (known, digit, value, place))

append_loop_lem :
    (enc : Encoding) (fuel n i : ℕ) (buf : Bytes)
    → IsValid enc
    → n < 2 ^ 64
    → n < 2 ^ fuel
    → n < 62 ^ i
    → i ≤ length buf
    → Writes enc n i buf (append_loop fuel enc.encode_table n i buf)
unfolding append_loop parse_loop
append_loop_lem enc zero zero i buf v small enough room h = record {
  at = i;
  after = buf;
  text = [];
  run = refl;
  result = refl;
  meaning = λ rest. refl;
}
append_loop_lem enc (suc fuel) zero i buf v small enough room h = record {
  at = i;
  after = buf;
  text = [];
  run = refl;
  result = refl;
  meaning = λ rest. refl;
}
append_loop_lem enc zero (suc n) i buf v small enough room h = absurd (omega arith)
append_loop_lem enc (suc fuel) (suc n) zero buf v small enough room h = absurd (omega arith)
append_loop_lem enc (suc fuel) (suc n) (suc i) buf v small enough room h =
    let (c, found) = get_elem?_total enc.encode_table (suc n % 62) (rw v.encodes (omega arith)) in
    let buf' : Bytes = set buf i c in
    let w =
      append_loop_lem enc fuel (suc n / 62) i buf' v (omega arith) (omega (arith, pow-suc 2 fuel))
        (omega (arith, pow-suc 62 i)) (omega (arith, length-set buf i c)) in
    record {
      at = w.at;
      after = w.after;
      text = w.text ++ (c ∷ []);
      run = rw (found, lt→ltb i (length buf) h) w.run;
      result =
          w.result
          ∙ ap (λ (t : Bytes). w.text ++ t) (drop-set buf i c h)
          ∙ sym (append_assoc w.text (c ∷ []) (drop (suc i) buf));
      meaning = parse_digit enc w.text (suc n) c small (v.inverse (suc n % 62) c found) w.meaning;
    }

-- `AppendUint` appends a text to `dst`, on every `uint64`, and `ParseUint` reads the number back
-- from that text.
pub parse_uint-append_uint :
    (enc : Encoding) (dst : Bytes) (n : ℕ)
    → IsValid enc
    → n < 2 ^ 64
    → (text : Bytes) × (append_uint enc dst n ≡ some (dst ++ text)) × (parse_uint enc text ≡ ok n)
unfolding append_uint parse_uint parse_loop
parse_uint-append_uint enc dst zero v h =
    let (c, found) = get_elem?_total enc.encode_table 0 (rw v.encodes (omega arith)) in
    (c ∷ [], rw found, rw (v.inverse 0 c found))
parse_uint-append_uint enc dst (suc n) v h =
    let w = append_loop_lem enc 64 (suc n) 11 (zeros 11) v h h (omega arith) (omega arith) in
    let nonzero : (suc n == 0) ≡ false = ground arith in
    (
      w.text,
      rw (nonzero, w.run, w.result) (ap (λ (t : Bytes). some (dst ++ t)) (append-nil w.text)),
      ap (λ (t : Bytes). parse_loop enc.decode_map 0 t 0) (sym (append-nil w.text)) ∙ w.meaning [],
    )

-- The same for `AppendInt` and `ParseInt` on every `int64`, negative ones included.
pub parse_int-append_int :
    (enc : Encoding) (dst : Bytes) (z : ℤ)
    → IsValid enc
    → IsI64 z
    → (text : Bytes) × (append_int enc dst z ≡ some (dst ++ text)) × (parse_int enc text ≡ ok z)
unfolding append_int parse_int
parse_int-append_int enc dst z v h =
    let (text, run, back) = parse_uint-append_uint enc dst (to_u64 z) v (to_u64-lt z) in
    (text, run, rw back (ap ok (to_i64-to_u64 z h)))

-- The number that digits stand for, after `acc`.
abbrev pub value : ℕ → Bytes → ℕ
value acc [] = acc
value acc (x ∷ xs) = value (acc * 62 + x) xs

parse_loop-value :
    (map cs xs : Bytes) (i acc : ℕ)
    → Spells map cs xs
    → parse_loop map i cs (acc % 2 ^ 64) ≡ ok (value acc xs % 2 ^ 64)
unfolding parse_loop
parse_loop-value map [] [] i acc h = refl
parse_loop-value map [] (x ∷ xs) i acc h = absurd h
parse_loop-value map (c ∷ cs) [] i acc h = absurd h
parse_loop-value map (c ∷ cs) (x ∷ xs) i acc (known, small, h) =
    let other : (x == 0xFF) ≡ false = ground arith in
    let wrapped : (acc % 2 ^ 64 * 62 + x) % 2 ^ 64 ≡ (acc * 62 + x) % 2 ^ 64 = omega arith in
    rw (known, other, wrapped) (parse_loop-value map cs xs (i + 1) (acc * 62 + x) h)

parse_loop_corrupt :
    (map front xs : Bytes) (c : ℕ) (rest : Bytes) (i num : ℕ)
    → Spells map front xs
    → get_elem? map c ≡ some 0xFF
    → parse_loop map i (front ++ (c ∷ rest)) num ≡ err (corrupt_input (i + length front))
unfolding parse_loop
parse_loop_corrupt map [] [] c rest i num h bad =
    rw bad (ap (λ (t : ℕ). err (corrupt_input t)) (omega arith))
parse_loop_corrupt map [] (x ∷ xs) c rest i num h bad = absurd h
parse_loop_corrupt map (d ∷ ds) [] c rest i num h bad = absurd h
parse_loop_corrupt map (d ∷ ds) (x ∷ xs) c rest i num (known, small, h) bad =
    let other : (x == 0xFF) ≡ false = ground arith in
    let place : i + 1 + length ds ≡ i + length (d ∷ ds) = omega arith in
    rw (known, other)
      (parse_loop_corrupt map ds xs c rest (i + 1) _ h bad
        ∙ ap (λ (t : ℕ). err (corrupt_input t)) place)

-- `ParseUint` on any bytes: the number that the digits stand for, reduced modulo 2 ^ 64 with no
-- error where it is larger, or the position of the first byte that is not in the alphabet.
pub parse_uint_total :
    (enc : Encoding) (src : Bytes)
    → IsValid enc
    → All IsByte src
    → ((xs : Bytes) × Spells enc.decode_map src xs
        × (parse_uint enc src ≡ ok (value 0 xs % 2 ^ 64)))
      ⊎ ((front : Bytes) × (c : ℕ) × (rest : Bytes) × (src ≡ front ++ (c ∷ rest))
          × All (InAlphabet enc) front
          × (¬ InAlphabet enc c)
          × (parse_uint enc src ≡ err (corrupt_input (length front))))
unfolding parse_uint
parse_uint_total enc src v bytes = elim (decode_total enc src v bytes) [
  | all_good xs good spells run ↦
      inl (xs, spells, parse_loop-value enc.decode_map src xs 0 0 spells)
  | first_bad front c rest e xs good spells bad absent run ↦ inr (
    front,
    c,
    rest,
    e,
    good,
    absent,
    ap (λ (t : Bytes). parse_loop enc.decode_map 0 t 0) e
        ∙ parse_loop_corrupt enc.decode_map front xs c rest 0 0 spells bad
        ∙ ap (λ (t : ℕ). err (corrupt_input t)) (omega arith),
  )
]
