-- ===== src/Base62/Runs.antt =====
-- Concrete runs of encoding/base62, and its theorems at concrete inputs.
use yellowstone_common.Common.{
  ℕ, ◌-◌, ◌*◌, ◌<◌, ◌≤◌, ◌%◌, ◌^◌, ◌≡◌, refl, arith, some, [], ◌∷◌, ◌++◌, ◌⊎◌, Bytes, All, length,
}
use yellowstone_common.Common.Outcome.{ok, err}
use yellowstone_common.Common.Int.{negsuc}
use yellowstone_common.Common.Text.{codes}
use yellowstone_common.Base62.{
  Encoding, new_encoding, encode, encode_bytes_v1, encode_bytes_v2, encode_to_buf, has_newline,
}
use yellowstone_common.Base62.Tables.{IsValid, is_distinct, is_distinct_sound, new_encoding-IsValid}
use yellowstone_common.Base62.Versions.{encode_bytes_v1-encode_bytes_v2}
use yellowstone_common.Base62.Lengths.{encode-length}
use yellowstone_common.Base62.RoundTrip.{decode-encode, encode_to_buf-encode}
use yellowstone_common.Base62.Decoder.{corrupt_input, Slice, decode}
use yellowstone_common.Base62.Decoder.Buffer.{Spells}
use yellowstone_common.Base62.Errors.{Decodes, InAlphabet, decode_total}
use yellowstone_common.Base62.Buffers.{DecodesBehind, decode_to_buf-decode}
use yellowstone_common.Base62.Integer.{append_uint, append_int, parse_uint, parse_int}
use yellowstone_common.Base62.Integer.Laws.{
  parse_uint-append_uint, parse_int-append_int, value, parse_uint_total,
}
use yellowstone_common.Base62.Integer.Bounds.{append_uint-length}
use yellowstone_common.Base62.Default.{
  encode_std, std_encoding-IsValid, std_encode, std_decode, std_encoding, std_parse_uint,
}

abbrev std : Encoding
std = std_encoding-IsValid.0

std-IsValid : IsValid std
std-IsValid = std_encoding-IsValid.3

-- Eight bytes that need both kinds of digits.
abbrev sample : Bytes
sample = 255 ∷ 254 ∷ 253 ∷ 252 ∷ 251 ∷ 7 ∷ 0 ∷ 0 ∷ []

sample_text : std_encode sample ≡ some (codes "AAwB7zfe7ffD")
unfolding std_encode encode std_encoding new_encoding
sample_text = refl

bad_text : std_decode (codes "AA*B") ≡ err (corrupt_input 2)
unfolding std_decode decode std_encoding new_encoding
bad_text = refl

-- A number above 2 ^ 64 - 1 is read modulo 2 ^ 64, with no error.
parse_too_large : std_parse_uint (codes "99999999999") ≡ ok ((62 ^ 11 - 1) % 2 ^ 64)
unfolding std_parse_uint parse_uint std_encoding new_encoding
parse_too_large = refl

new_encoding-IsValid_example :
    (enc : Encoding) × (new_encoding encode_std ≡ some enc)
    × (enc.encode_table ≡ encode_std)
    × IsValid enc
unfolding is_distinct has_newline
new_encoding-IsValid_example =
    new_encoding-IsValid encode_std refl refl (omega arith) (is_distinct_sound encode_std refl)

decode-encode_example :
    (text : Bytes) × (encode std sample ≡ some text) × (decode std text ≡ ok sample)
decode-encode_example = decode-encode std sample std-IsValid (omega arith)

encode_bytes_v1-encode_bytes_v2_example : encode_bytes_v1 std sample ≡ encode_bytes_v2 std sample
encode_bytes_v1-encode_bytes_v2_example = encode_bytes_v1-encode_bytes_v2 std sample (omega arith)

decode_total_example : Decodes std (codes "AA*B")
decode_total_example = decode_total std (codes "AA*B") std-IsValid (omega arith)

-- A slice of length 2 and capacity 3: its memory has to grow.
abbrev small : Slice
small = record { memory = 1 ∷ 2 ∷ 3 ∷ []; len = 2 }

decode_to_buf-decode_example : DecodesBehind std small (codes "AAwB7zfe7ffD")
decode_to_buf-decode_example =
    decode_to_buf-decode std small (codes "AAwB7zfe7ffD") std-IsValid (omega arith) (omega arith)

parse_uint-append_uint_example :
    (text : Bytes) × (append_uint std (7 ∷ []) (2 ^ 64 - 1) ≡ some (7 ∷ text))
    × (parse_uint std text ≡ ok (2 ^ 64 - 1))
parse_uint-append_uint_example =
    parse_uint-append_uint std (7 ∷ []) (2 ^ 64 - 1) std-IsValid (omega arith)

abbrev three_digits : ℕ
three_digits = 3844

append_uint-length_example :
    (text : Bytes) × (append_uint std (7 ∷ []) three_digits ≡ some (7 ∷ text))
    × (1 ≤ length text)
    × (length text ≤ 11)
    × (three_digits < 62 ^ length text)
    × ((three_digits ≡ 0) ⊎ (62 ^ length text ≤ 62 * three_digits))
append_uint-length_example = append_uint-length std (7 ∷ []) three_digits std-IsValid (omega arith)

parse_uint_total_example :
    ((xs : Bytes) × Spells std.decode_map (codes "A*") xs
      × (parse_uint std (codes "A*") ≡ ok (value 0 xs % 2 ^ 64)))
    ⊎ ((front : Bytes) × (c : ℕ) × (rest : Bytes) × (codes "A*" ≡ front ++ (c ∷ rest))
        × All (InAlphabet std) front
        × (¬ InAlphabet std c)
        × (parse_uint std (codes "A*") ≡ err (corrupt_input (length front))))
parse_uint_total_example = parse_uint_total std (codes "A*") std-IsValid (omega arith)

encode-length_example :
    (text : Bytes) × (encode std (1 ∷ 200 ∷ 30 ∷ []) ≡ some text)
    × (24 ≤ 6 * length text)
    × (5 * length text ≤ 28)
encode-length_example = encode-length std (1 ∷ 200 ∷ 30 ∷ []) std-IsValid (omega arith)

parse_int-append_int_example :
    (text : Bytes) × (append_int std [] (negsuc 41) ≡ some text)
    × (parse_int std text ≡ ok (negsuc 41))
parse_int-append_int_example = parse_int-append_int std [] (negsuc 41) std-IsValid (omega arith)

encode_to_buf-encode_example :
    (text : Bytes) × (encode std sample ≡ some text)
    × (encode_to_buf std (1 ∷ 2 ∷ []) sample ≡ some (1 ∷ 2 ∷ text))
encode_to_buf-encode_example =
    encode_to_buf-encode std (1 ∷ 2 ∷ []) sample std-IsValid (omega arith)
