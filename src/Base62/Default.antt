-- ===== src/Base62/Default.antt =====
-- encoding/base62/default.go: the functions over the standard alphabet [A-Za-z0-9].
use yellowstone_common.Common.{ℕ, ◌≡◌, refl, arith, Option, some, Bytes, All}
use yellowstone_common.Common.Options
use yellowstone_common.Common.Outcome.{Outcome, ok, ◌>>=◌, or_panic}
use yellowstone_common.Common.Int.{ℤ}
use yellowstone_common.Common.Text.{codes}
use yellowstone_common.Base62.{
  Encoding, new_encoding, has_newline, encode, encode_to_string, encode_to_buf,
}
use yellowstone_common.Base62.Digits.{IsByte}
use yellowstone_common.Base62.Tables.{IsValid, is_distinct, is_distinct_sound, new_encoding-IsValid}
use yellowstone_common.Base62.RoundTrip.{decode-encode}
use yellowstone_common.Base62.Decoder.{Error, Slice, decode, decode_string, decode_to_buf}
use yellowstone_common.Base62.Integer.{
  append_uint, append_int, format_uint, format_int, parse_uint, parse_int,
}

abbrev pub encode_std : Bytes
encode_std = codes "ABCDEFGHIJKLMNOPQRSTUVWXYZabcdefghijklmnopqrstuvwxyz0123456789"

-- `StdEncoding`; its panic would be one at the start of the program.
unfoldable pub std_encoding : Option Encoding
std_encoding = new_encoding encode_std

unfoldable pub std_encode : Bytes → Option Bytes
std_encode src = Options.◌>>=◌ std_encoding (λ enc. encode enc src)

unfoldable pub std_encode_to_string : Bytes → Option Bytes
std_encode_to_string src = Options.◌>>=◌ std_encoding (λ enc. encode_to_string enc src)

unfoldable pub std_encode_to_buf : Bytes → Bytes → Option Bytes
std_encode_to_buf dst src = Options.◌>>=◌ std_encoding (λ enc. encode_to_buf enc dst src)

unfoldable pub std_append_int : Bytes → ℤ → Option Bytes
std_append_int dst num = Options.◌>>=◌ std_encoding (λ enc. append_int enc dst num)

unfoldable pub std_append_uint : Bytes → ℕ → Option Bytes
std_append_uint dst num = Options.◌>>=◌ std_encoding (λ enc. append_uint enc dst num)

unfoldable pub std_format_int : ℤ → Option Bytes
std_format_int num = Options.◌>>=◌ std_encoding (λ enc. format_int enc num)

unfoldable pub std_format_uint : ℕ → Option Bytes
std_format_uint num = Options.◌>>=◌ std_encoding (λ enc. format_uint enc num)

unfoldable pub std_decode : Bytes → Outcome Error Bytes
std_decode src = or_panic std_encoding >>= λ enc. decode enc src

unfoldable pub std_decode_string : Bytes → Outcome Error Bytes
std_decode_string src = or_panic std_encoding >>= λ enc. decode_string enc src

unfoldable pub std_decode_to_buf : Slice → Bytes → Outcome Error Slice
std_decode_to_buf dst src = or_panic std_encoding >>= λ enc. decode_to_buf enc dst src

unfoldable pub std_parse_int : Bytes → Outcome Error ℤ
std_parse_int src = or_panic std_encoding >>= λ enc. parse_int enc src

unfoldable pub std_parse_uint : Bytes → Outcome Error ℕ
std_parse_uint src = or_panic std_encoding >>= λ enc. parse_uint enc src

std_bytes : All IsByte encode_std
std_bytes = omega arith

-- The package's initialisation succeeds, with a valid encoding of the standard alphabet.
pub std_encoding-IsValid :
    (enc : Encoding) × (std_encoding ≡ some enc) × (enc.encode_table ≡ encode_std) × IsValid enc
unfolding std_encoding is_distinct has_newline
std_encoding-IsValid =
    new_encoding-IsValid encode_std refl refl std_bytes (is_distinct_sound encode_std refl)

-- The package's `Encode` succeeds on every byte string, and its `Decode` gives it back.
pub std_decode-std_encode :
    (src : Bytes)
    → All IsByte src
    → (text : Bytes) × (std_encode src ≡ some text) × (std_decode text ≡ ok src)
unfolding std_encode std_decode
std_decode-std_encode src bytes =
    let (enc, made, table, v) = std_encoding-IsValid in
    let (text, run, back) = decode-encode enc src v bytes in (text, rw made run, rw made back)
