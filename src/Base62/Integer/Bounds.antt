-- ===== src/Base62/Integer/Bounds.antt =====
-- encoding/base62/integer.go: how long the texts of integers are.
use yellowstone_common.Common.{
  ℕ, zero, suc, ◌+◌, ◌*◌, ◌/◌, ◌%◌, ◌^◌, ◌≤◌, ◌<◌, ◌≡◌, refl, ◌∙◌, arith, ◌==◌, false, some, ◌⊎◌,
  inl, inr, [], ◌∷◌, ◌++◌, Option, Bytes, length, set, drop, length-drop, length-set, lt→ltb,
  get_elem?_total,
}
use yellowstone_common.Base62.{Encoding}
use yellowstone_common.Base62.Tables.{IsValid}
use yellowstone_common.Base62.Decoder.{zeros}
use yellowstone_common.Base62.Integer.{append_loop, append_uint}
use native.Mathlib.Nat.{pow-suc}

-- What the loop of `AppendUint` leaves is `digits` bytes longer, as many as `n` has digits.
record Lengthens (n i : ℕ) (buf : Bytes) (r : Option (ℕ × Bytes)) : Type 0 where
  at : ℕ
  after : Bytes
  digits : ℕ
  run : r ≡ some (at, after)
  place : at + digits ≡ i
  same : length after ≡ length buf
  above : n < 62 ^ digits
  below : (digits ≡ 0) ⊎ (62 ^ digits ≤ 62 * n)
  zeroes : digits ≡ 0 → n ≡ 0

one_more :
    (n d : ℕ) → (d ≡ 0) ⊎ (62 ^ d ≤ 62 * (n / 62)) → 1 ≤ n → (suc d ≡ 0) ⊎ (62 ^ suc d ≤ 62 * n)
one_more n d (inr h) positive = inr (omega (arith, pow-suc 62 d))
one_more n zero (inl h) positive = inr (omega arith)
one_more n (suc d) (inl h) positive = absurd (omega arith)

append_loop-length :
    (enc : Encoding) (fuel n i : ℕ) (buf : Bytes)
    → IsValid enc
    → n < 2 ^ fuel
    → n < 62 ^ i
    → i ≤ length buf
    → Lengthens n i buf (append_loop fuel enc.encode_table n i buf)
unfolding append_loop
append_loop-length enc zero zero i buf v enough room h = record {
  at = i;
  after = buf;
  digits = 0;
  run = refl;
  place = omega arith;
  same = refl;
  above = omega arith;
  below = inl refl;
  zeroes = λ e. refl;
}
append_loop-length enc (suc fuel) zero i buf v enough room h = record {
  at = i;
  after = buf;
  digits = 0;
  run = refl;
  place = omega arith;
  same = refl;
  above = omega arith;
  below = inl refl;
  zeroes = λ e. refl;
}
append_loop-length enc zero (suc n) i buf v enough room h = absurd (omega arith)
append_loop-length enc (suc fuel) (suc n) zero buf v enough room h = absurd (omega arith)
append_loop-length enc (suc fuel) (suc n) (suc i) buf v enough room h =
    let (c, found) = get_elem?_total enc.encode_table (suc n % 62) (rw v.encodes (omega arith)) in
    let buf' : Bytes = set buf i c in
    let w =
      append_loop-length enc fuel (suc n / 62) i buf' v (omega (arith, pow-suc 2 fuel))
        (omega (arith, pow-suc 62 i)) (omega (arith, length-set buf i c)) in
    record {
      at = w.at;
      after = w.after;
      digits = suc w.digits;
      run = rw (found, lt→ltb i (length buf) h) w.run;
      place = omega (arith, w.place);
      same = w.same ∙ length-set buf i c;
      above = omega (arith, w.above, pow-suc 62 w.digits);
      below = one_more (suc n) w.digits w.below (omega arith);
      zeroes = λ e. absurd (omega arith);
    }

some_digits : (d n : ℕ) → (d ≡ 0 → suc n ≡ 0) → 1 ≤ d
some_digits zero n h = absurd (omega (arith, h refl))
some_digits (suc d) n h = omega arith

bounded_below : (d n : ℕ) → 1 ≤ d → (d ≡ 0) ⊎ (62 ^ d ≤ 62 * n) → (n ≡ 0) ⊎ (62 ^ d ≤ 62 * n)
bounded_below d n h (inl e) = absurd (omega arith)
bounded_below d n h (inr b) = inr b

-- What the buffer of eleven bytes holds in the end.
written_length :
    (n : ℕ) (buf : Bytes) (r : Option (ℕ × Bytes)) (w : Lengthens n 11 buf r)
    → length buf ≡ 11
    → length (drop w.at w.after) ≡ w.digits
written_length n buf r w h = omega (arith, length-drop w.at w.after, w.same, w.place)

-- On every `uint64` `AppendUint` appends a text of as many bytes as the number has digits in base 62, at least one
-- and at most eleven.
pub append_uint-length :
    (enc : Encoding) (dst : Bytes) (n : ℕ)
    → IsValid enc
    → n < 2 ^ 64
    → (text : Bytes) × (append_uint enc dst n ≡ some (dst ++ text))
      × (1 ≤ length text)
      × (length text ≤ 11)
      × (n < 62 ^ length text)
      × ((n ≡ 0) ⊎ (62 ^ length text ≤ 62 * n))
unfolding append_uint
append_uint-length enc dst zero v h =
    let (c, found) = get_elem?_total enc.encode_table 0 (rw v.encodes (omega arith)) in
    (c ∷ [], rw found, omega arith, omega arith, omega arith, inl refl)
append_uint-length enc dst (suc n) v h =
    let w = append_loop-length enc 64 (suc n) 11 (zeros 11) v h (omega arith) (omega arith) in
    let nonzero : (suc n == 0) ≡ false = ground arith in
    let long : length (drop w.at w.after) ≡ w.digits = written_length (suc n) (zeros 11) _ w refl in
    let positive : 1 ≤ w.digits = some_digits w.digits n w.zeroes in
    (
      drop w.at w.after,
      rw (nonzero, w.run),
      rw long positive,
      omega (arith, long, w.place),
      rw long w.above,
      rw long (bounded_below w.digits (suc n) positive w.below),
    )
