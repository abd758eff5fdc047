-- ===== src/Base62/RoundTrip.antt =====
-- encoding/base62/base62.go: encoding and then decoding.
use yellowstone_common.Common.{
  ℕ, zero, suc, ◌+◌, ◌-◌, ◌*◌, ◌/◌, ◌%◌, ◌^◌, ◌<◌, ◌≡◌, refl, sym, ap, ◌∙◌, arith, if◌then◌else◌,
  [], ◌∷◌, ◌++◌, Bytes, length, All, some, drop, reverse_onto, reversed_twice, is_empty,
  length-reverse_onto, All-reverse_onto, length-replicate, get_elem?_total,
}
use yellowstone_common.Common.Options.{◌>>=◌}
use yellowstone_common.Common.Outcome.{ok}
use yellowstone_common.Base62.{Encoding, encode, encode_to_buf, encode_v2}
use yellowstone_common.Base62.Tables.{IsValid}
use yellowstone_common.Base62.Digits.{IsByte, digits, characters, encode_v2-digits, All-digits}
use yellowstone_common.Base62.Decoder.{decode, zeros}
use yellowstone_common.Base62.Decoder.Undo.{undigits, undigits-digits}
use yellowstone_common.Base62.Decoder.Buffer.{Spells, decode_loop-undigits}

-- Digits below 62 have characters, which stand for them.
characters_total :
    (enc : Encoding) (xs : Bytes)
    → IsValid enc
    → All (λ x. x < 62) xs
    → (cs : Bytes) × (characters enc.encode_table xs ≡ some cs) × Spells enc.decode_map cs xs
unfolding characters
characters_total enc [] v h = ([], refl, tt)
characters_total enc (x ∷ xs) v (small, h) =
    let (c, found) = get_elem?_total enc.encode_table x (rw v.encodes small) in
    let (cs, rest, spells) = characters_total enc xs v h in
    (c ∷ cs, rw (found, rest), (v.inverse x c found, small, spells))

pub drop_all : (n : ℕ) (xs : Bytes) → length xs ≡ n → drop n xs ≡ []
drop_all zero [] e = refl
drop_all (suc n) [] e = refl
drop_all zero (x ∷ xs) e = absurd (omega arith)
drop_all (suc n) (x ∷ xs) e = drop_all n xs (omega arith)

pub length-zeros : (n : ℕ) → length (zeros n) ≡ n
length-zeros n = length-replicate n _

-- The decoder on any characters of digits.
pub decode-undigits :
    (enc : Encoding) (cs xs : Bytes)
    → Spells enc.decode_map cs xs
    → decode enc cs ≡ ok (undigits xs 0 0 [])
unfolding decode undigits
decode-undigits enc [] [] spells = refl
decode-undigits enc [] (x ∷ xs) spells = absurd spells
decode-undigits enc (c ∷ cs) xs spells =
    let n : ℕ = length (c ∷ cs) * 6 / 8 + 1 in
    let dst : Bytes = zeros n in
    let size : length dst ≡ n = length-zeros n in
    let l =
      decode_loop-undigits enc.decode_map (c ∷ cs) xs 0 n dst 0 0 spells (omega arith) (omega arith)
        (omega arith) in
    rw l.run (ap ok (l.result ∙ ap (undigits xs 0 0) (drop_all n dst size)))

-- What the encoder appends: the characters of the digits of the reversed source.
encode-characters :
    (enc : Encoding) (c : ℕ) (cs dst : Bytes)
    → All IsByte (c ∷ cs)
    → encode_v2
        (length (c ∷ cs) * 8)
        (reverse_onto (c ∷ cs) [])
        enc.encode_table
        (length (c ∷ cs) * 8)
        dst
      ≡ (characters enc.encode_table (digits (length (c ∷ cs) * 8) 0 (c ∷ cs)) >>= λ text.
          some (dst ++ text))
encode-characters enc c cs dst bytes =
    let n : ℕ = length (c ∷ cs) * 8 in
    let e : n ≡ 8 * length (c ∷ cs) - 0 = omega arith in
    ap (λ (t : ℕ). encode_v2 n (reverse_onto (c ∷ cs) []) enc.encode_table t dst) e
    ∙ encode_v2-digits n (c ∷ cs) [] enc.encode_table dst 0 (omega arith) bytes (omega arith)

-- All about an encoded source that is given by its reverse.
encode_reversed :
    (enc : Encoding) (dst src rs : Bytes)
    → IsValid enc
    → All IsByte rs
    → src ≡ reverse_onto rs []
    → length src ≡ length rs
    → (text : Bytes) × (encode enc src ≡ some text)
      × (decode enc text ≡ ok src)
      × (encode_to_buf enc dst src ≡ some (if is_empty src then [] else dst ++ text))
unfolding encode encode_to_buf
encode_reversed enc dst [] rs v bytes e len = ([], refl, unfold decode in refl, refl)
encode_reversed enc dst (a ∷ as') [] v bytes e len = absurd (omega arith)
encode_reversed enc dst (a ∷ as') (c ∷ cs) v bytes e len =
    let n : ℕ = length (c ∷ cs) * 8 in
    let xs : Bytes = digits n 0 (c ∷ cs) in
    let (text, found, spells) = characters_total enc xs v (All-digits n 0 (c ∷ cs)) in
    let start : 0 ≡ c % 2 ^ 0 = omega arith in
    (
      text,
      rw (len, e) (encode-characters enc c cs [] bytes ∙ rw found),
      decode-undigits enc text xs spells
          ∙ ap ok (
              ap (λ (t : ℕ). undigits xs 0 t []) start
              ∙ undigits-digits n c cs [] 0 (omega arith) bytes (omega arith)
              ∙ sym e),
      rw (len, e) (encode-characters enc c cs dst bytes ∙ rw found),
    )

encode_total :
    (enc : Encoding) (dst src : Bytes)
    → IsValid enc
    → All IsByte src
    → (text : Bytes) × (encode enc src ≡ some text)
      × (decode enc text ≡ ok src)
      × (encode_to_buf enc dst src ≡ some (if is_empty src then [] else dst ++ text))
encode_total enc dst src v bytes =
    encode_reversed enc dst src (reverse_onto src []) v (All-reverse_onto _ src [] bytes tt)
      (sym (reversed_twice src)) (omega (arith, length-reverse_onto src []))

-- For a valid encoding, `Encode` succeeds on every byte string, and `Decode` gives it back.
pub decode-encode :
    (enc : Encoding) (src : Bytes)
    → IsValid enc
    → All IsByte src
    → (text : Bytes) × (encode enc src ≡ some text) × (decode enc text ≡ ok src)
decode-encode enc src v bytes =
    let (text, run, back, appended) = encode_total enc [] src v bytes in (text, run, back)

-- A source that is not empty: `EncodeToBuf` appends what `Encode` gives to the contents of `dst`.
-- An empty one: it returns nothing, whatever `dst` holds.
pub encode_to_buf-encode :
    (enc : Encoding) (dst src : Bytes)
    → IsValid enc
    → All IsByte src
    → (text : Bytes) × (encode enc src ≡ some text)
      × (encode_to_buf enc dst src ≡ some (if is_empty src then [] else dst ++ text))
encode_to_buf-encode enc dst src v bytes =
    let (text, run, back, appended) = encode_total enc dst src v bytes in (text, run, appended)
