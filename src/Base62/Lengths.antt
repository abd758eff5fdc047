-- ===== src/Base62/Lengths.antt =====
-- encoding/base62/base62.go: how long the texts of byte strings are.
use yellowstone_common.Common.{
  ℕ, zero, suc, ◌+◌, ◌-◌, ◌*◌, ◌≤◌, ◌≡◌, refl, sym, ap, ◌∙◌, arith, Bool, Option, some, ltb, [],
  ◌∷◌, ◌++◌, Bytes, length, length-append, All, get_elem?,
}
use yellowstone_common.Common.Options.{bound_some}
use yellowstone_common.Base62.{Encoding, compact, get6bits, encode_v2, encode}
use yellowstone_common.Base62.Digits.{IsByte}
use yellowstone_common.Base62.Tables.{IsValid}
use yellowstone_common.Base62.RoundTrip.{decode-encode}

-- A digit takes five or six bits.
compact_width : (more : Bool) (b : ℕ) → (5 ≤ (compact more b).0) × ((compact more b).0 ≤ 6)
unfolding compact
compact_width more b = ground arith

same_length : (dst r : Bytes) → Path (Option Bytes) (some dst) (some r) → length r ≡ length dst
same_length dst r e = let same : dst ≡ r = cc e in ap length (sym same)

encode_v2-length :
    (fuel : ℕ) (src table : Bytes) (p : ℕ) (dst r : Bytes)
    → encode_v2 fuel src table p dst ≡ some r
    → (d : ℕ) × (length r ≡ length dst + d) × (p ≤ 6 * d) × (5 * d ≤ p + 4)
unfolding encode_v2
encode_v2-length zero src table zero dst r e =
    (0, same_length dst r e ∙ omega arith, omega arith, omega arith)
encode_v2-length (suc fuel) src table zero dst r e =
    (0, same_length dst r e ∙ omega arith, omega arith, omega arith)
encode_v2-length zero src table (suc p) dst r e = absurd (ground (arith, e))
encode_v2-length (suc fuel) src table (suc p) dst r e =
    let (b, got, e1) = bound_some (get6bits src (suc p)) _ e in
    let size = (compact (ltb 6 (suc p)) b).0 in
    let (c, found, e2) = bound_some (get_elem? table (compact (ltb 6 (suc p)) b).1) _ e1 in
    let (d, len, low, high) =
      encode_v2-length fuel src table (suc p - size) (dst ++ (c ∷ [])) r e2 in
    let (five, sixth) = compact_width (ltb 6 (suc p)) b in
    (
      suc d,
      omega (arith, len, length-append dst (c ∷ [])),
      omega (arith, low, sixth),
      omega (arith, high, five),
    )

-- With a valid encoding, `Encode` succeeds on every byte string, with a text of at least a byte for each
-- six bits, and at most one for each five bits, the last of which may be fewer.
pub encode-length :
    (enc : Encoding) (src : Bytes)
    → IsValid enc
    → All IsByte src
    → (text : Bytes) × (encode enc src ≡ some text)
      × (8 * length src ≤ 6 * length text)
      × (5 * length text ≤ 8 * length src + 4)
unfolding encode
encode-length enc [] v bytes = ([], refl, omega arith, omega arith)
encode-length enc (c ∷ cs) v bytes =
    let (text, run, back) = decode-encode enc (c ∷ cs) v bytes in
    let (d, len, low, high) =
      encode_v2-length (length (c ∷ cs) * 8) (c ∷ cs) enc.encode_table (length (c ∷ cs) * 8) [] text
        run in
    (text, run, omega (arith, len, low), omega (arith, len, high))
