-- ===== src/Base62/Decoder/Buffer.antt =====
-- The decoder's loop of encoding/base62/base62.go over its buffer, against `undigits`.
use yellowstone_common.Common.{
  ℕ, zero, suc, ◌+◌, ◌-◌, ◌*◌, ◌/◌, ◌%◌, ◌^◌, ◌≤◌, ◌<◌, bit_or, ◌≡◌, refl, sym, ap, arith, ◌==◌,
  Bool, false, [], ◌∷◌, Bytes, length, some, get_elem?, set, drop, drop-set, length-set, lt→ltb,
  le→ltb,
}
use yellowstone_common.Common.Outcome.{Outcome, ok}
use yellowstone_common.Base62.Decoder.{Error, len8, digit_width, put_byte, decode_loop}
use yellowstone_common.Base62.Decoder.Undo.{undigits}
use native.Mathlib.Decide.{dec_lt}

-- The characters `cs` stand for the digits `xs`.
abbrev pub Spells : Bytes → Bytes → Bytes → Type 0
Spells table [] [] = Unit {0}
Spells table [] (x ∷ xs) = ⊥
Spells table (c ∷ cs) [] = ⊥
Spells table (c ∷ cs) (x ∷ xs) = (get_elem? table c ≡ some x) × (x < 62) × Spells table cs xs

put_byte_lem :
    (idx : ℕ) (dst : Bytes) (b : ℕ)
    → 0 < idx
    → idx ≤ length dst
    → (put_byte idx dst b ≡ ok (idx - 1, set dst (idx - 1) (b % 256)))
      × (drop (idx - 1) (set dst (idx - 1) (b % 256)) ≡ (b % 256) ∷ drop idx dst)
unfolding put_byte
put_byte_lem zero dst b h k = absurd (omega arith)
put_byte_lem (suc j) dst b h k =
    let e : suc j - 1 ≡ j = omega arith in
    rw e (rw (lt→ltb j (length dst) k), drop-set dst j (b % 256) k)

pub width-le : (last : Bool) (x : ℕ) → x < 62 → digit_width last x ≤ 6
unfolding digit_width len8
width-le last x h = ground arith

-- The buffer that a run leaves: its part from `idx` on is `out`, and its size is as before.
pub record Leaves (size : ℕ) (r : Outcome Error (ℕ × Bytes)) (out : Bytes) : Type 0 where
  pub idx : ℕ
  pub dst : Bytes
  pub run : r ≡ ok (idx, dst)
  pub result : drop idx dst ≡ out
  pub room : idx ≤ size
  pub kept : length dst ≡ size

finish :
    (table : Bytes) (i idx : ℕ) (dst : Bytes) (pos b : ℕ)
    → pos ≤ 8 * idx
    → idx ≤ length dst
    → Leaves (length dst) (decode_loop table i [] idx dst pos b) (undigits [] pos b (drop idx dst))
unfolding decode_loop undigits
finish table i idx dst zero b h k = record {
  idx = idx;
  dst = dst;
  run = refl;
  result = refl;
  room = k;
  kept = refl;
}
finish table i idx dst (suc p) b h k =
    let (put, written) = put_byte_lem idx dst b (omega arith) k in
    record {
      idx = idx - 1;
      dst = set dst (idx - 1) (b % 256);
      run = ground arith;
      result = ground arith;
      room = omega arith;
      kept = length-set dst (idx - 1) (b % 256);
    }

-- A round that keeps its bits, and one that writes a byte.
module _ (table : Bytes) (i c x idx pos b : ℕ) (cs dst : Bytes) (known : get_elem? table c ≡ some x)
    (small : x < 62) (lt : pos < 8) where
  abbrev pub width : ℕ
  width = digit_width (length cs == 0) x

  pub round_stay :
      pos + width < 8
      → decode_loop table i (c ∷ cs) idx dst pos b
        ≡ decode_loop table (i + 1) cs idx dst (pos + width) (bit_or b (x * 2 ^ pos))
  unfolding decode_loop
  round_stay h =
      let whole : (pos + width) % 256 ≡ pos + width = omega arith in
      let other : (x == 0xFF) ≡ false = ground arith in
      rw (known, other, whole) (rw (lt→ltb (pos + width) 8 h))

  pub round_emit :
      8 ≤ pos + width
      → 0 < idx
      → idx ≤ length dst
      → decode_loop table i (c ∷ cs) idx dst pos b
        ≡ decode_loop table
            (i + 1)
            cs
            (idx - 1)
            (set dst (idx - 1) (bit_or b (x * 2 ^ pos) % 256))
            ((pos + width) % 8)
            (bit_or b (x * 2 ^ pos) / 2 ^ 8)
  unfolding decode_loop
  round_emit h some_room k =
      let whole : (pos + width) % 256 ≡ pos + width = omega (arith, width-le (length cs == 0) x) in
      let other : (x == 0xFF) ≡ false = ground arith in
      rw (known, other, whole)
        (rw
          (le→ltb (pos + width) 8 h, (put_byte_lem idx dst (bit_or b (x * 2 ^ pos)) some_room k).0))

module _ (x pos b : ℕ) (xs out : Bytes) where
  undigits_stay :
      pos + digit_width (length xs == 0) x < 8
      → undigits (x ∷ xs) pos b out
        ≡ undigits xs (pos + digit_width (length xs == 0) x) (bit_or b (x * 2 ^ pos)) out
  unfolding undigits
  undigits_stay h = rw (lt→ltb _ 8 h)

  undigits_emit :
      8 ≤ pos + digit_width (length xs == 0) x
      → undigits (x ∷ xs) pos b out
        ≡ undigits xs
            ((pos + digit_width (length xs == 0) x) % 8)
            (bit_or b (x * 2 ^ pos) / 2 ^ 8)
            ((bit_or b (x * 2 ^ pos) % 256) ∷ out)
  unfolding undigits
  undigits_emit h = rw (le→ltb _ 8 h)

pub length-Spells : (table cs xs : Bytes) → Spells table cs xs → length cs ≡ length xs
length-Spells table [] [] h = refl
length-Spells table [] (x ∷ xs) h = absurd h
length-Spells table (c ∷ cs) [] h = absurd h
length-Spells table (c ∷ cs) (x ∷ xs) h = ap suc (length-Spells table cs xs h.2)

-- The loop over characters of digits.
pub decode_loop-undigits :
    (table cs xs : Bytes) (i idx : ℕ) (dst : Bytes) (pos b : ℕ)
    → Spells table cs xs
    → pos < 8
    → pos + 6 * length cs ≤ 8 * idx
    → idx ≤ length dst
    → Leaves (length dst) (decode_loop table i cs idx dst pos b) (undigits xs pos b (drop idx dst))
decode_loop-undigits table [] [] i idx dst pos b spells lt room k =
    finish table i idx dst pos b (omega arith) k
decode_loop-undigits table [] (x ∷ xs) i idx dst pos b spells lt room k = absurd spells
decode_loop-undigits table (c ∷ cs) [] i idx dst pos b spells lt room k = absurd spells
decode_loop-undigits table (c ∷ cs) (x ∷ xs) i idx dst pos b (known, small, spells) lt room k =
    let w : ℕ = digit_width (length cs == 0) x in
    let narrow : w ≤ 6 = width-le (length cs == 0) x small in
    let b' : ℕ = bit_or b (x * 2 ^ pos) in
    let same : length xs ≡ length cs = sym (length-Spells table cs xs spells) in
    elim (dec_lt (pos + w) 8) [
      | yes h ↦ rw (round_stay table i c x idx pos b cs dst known small lt h) (
          rw (undigits_stay x pos b xs (drop idx dst) (rw same h)) (
            rw same (
              decode_loop-undigits table cs xs (i + 1) idx dst (pos + w) b' spells h (omega arith)
                k)))
      | no h ↦
          let some_room : 0 < idx = omega arith in
          let dst' = set dst (idx - 1) (b' % 256) in
          let kept = length-set dst (idx - 1) (b' % 256) in
          rw (round_emit table i c x idx pos b cs dst known small lt (omega arith) some_room k) (
            rw (undigits_emit x pos b xs (drop idx dst) (rw same (omega arith))) (
              rw (same, ← (put_byte_lem idx dst b' some_room k).1, ← kept)
                (decode_loop-undigits table cs xs (i + 1) (idx - 1) dst' ((pos + w) % 8)
                  (b' / 2 ^ 8) spells (omega arith) (omega arith) (omega arith))))
    ]
