-- ===== src/Base62.antt =====
-- encoding/base62/base62.go: the encoding and both encoders (`Decoder` has the decoder). A byte
-- slice is a list of numbers below 256; `none` is an index out of range, and also the answer of an
-- encoder loop whose fuel ran out.
pub mod Digits
pub mod Tables
pub mod Versions
pub mod Decoder
pub mod RoundTrip
pub mod Lengths
pub mod Errors
pub mod Buffers
pub mod Integer
pub mod Default
mod Runs
use yellowstone_common.Common.{
  ℕ, zero, suc, ◌+◌, ◌-◌, ◌*◌, ◌/◌, ◌%◌, ◌^◌, bit_and, bit_or, Bool, false, ◌&&◌, ◌||◌, Option,
  none, some, [], ◌∷◌, ◌++◌, Bytes, length, is_empty, get_elem?, set, replicate, ltb, leb, ◌==◌,
  if◌then◌else◌,
}
use yellowstone_common.Common.Options.{◌>>=◌}

-- `compactMask`, `mask5bits` and `mask6bits`.
abbrev pub compact_mask : ℕ
compact_mask = 0x1E

abbrev pub mask5bits : ℕ
mask5bits = 0x1F

abbrev pub mask6bits : ℕ
mask6bits = 0x3F

pub record Encoding : Type 0 where
  pub encode_table : Bytes
  pub decode_map : Bytes

-- The two tests of `NewEncoding`.
pub has_newline : Bytes → Bool
has_newline [] = false
has_newline (c ∷ cs) = c == 10 || c == 13 || has_newline cs

-- `e.decodeMap[encoder[i]] = byte(i)`, for each `i` in order.
pub fill : ℕ → Bytes → Bytes → Bytes
fill i [] m = m
fill i (c ∷ cs) m = fill (i + 1) cs (set m c (i % 256))

-- `none` is one of the two panics.
pub new_encoding : Bytes → Option Encoding
unfolding has_newline fill
new_encoding encoder =
    if length encoder == 62
    then (if has_newline encoder
        then none
        else some
            (record { encode_table = encoder; decode_map = fill 0 encoder (replicate 256 0xFF) }))
    else none

-- Byte subtraction wraps.
abbrev pub byte_sub : ℕ → ℕ → ℕ
byte_sub a b = (a + 256 - b) % 256

-- The digit's width and its value after the test against `compactMask`. `more` says that bits are
-- left beyond the six.
pub compact : Bool → ℕ → ℕ × ℕ
compact more b =
    if bit_and b compact_mask == compact_mask
    then ((if more || ltb mask5bits b then 5 else 6), bit_and b mask5bits)
    else (6, b)

-- `get6bits`, after `r == 0` is adjusted.
pub six_at : Bytes → ℕ → ℕ → Option ℕ
six_at src i r = do
  hi ← get_elem? src i
  let b = hi / 2 ^ (8 - r)
  b' ←
      if ltb r 6 && ltb 0 i
      then (get_elem? src (i - 1) >>= λ lo. some (bit_or b (lo * 2 ^ r % 256)))
      else some b
  some (bit_and b' mask6bits)

pub get6bits : Bytes → ℕ → Option ℕ
unfolding six_at
get6bits src pos =
    let r = bit_and pos 0x7 in
    let i = pos / 2 ^ 3 in
    if r == 0 then (if i == 0 then none else six_at src (i - 1) 8) else six_at src i r

-- `encodeV2`: the loop, from the position `pos`. `enc.pos -= size` may pass below 0, where the
-- loop ends as it does at 0.
pub encode_v2 : ℕ → Bytes → Bytes → ℕ → Bytes → Option Bytes
encode_v2 fuel src table zero dst = some dst
encode_v2 zero src table (suc p) dst = none
encode_v2 (suc fuel) src table (suc p) dst = get6bits src (suc p) >>= λ b.
    let (size, x) = compact (ltb 6 (suc p)) b in
    get_elem? table x >>= λ c. encode_v2 fuel src table (suc p - size) (dst ++ (c ∷ []))

-- `next`, its positions: `pos`, `i`, `j` and `blen`.
pub window : ℕ → ℕ × ℕ × ℕ × ℕ
window p =
    if leb p 6
    then (0, 0, 0, p % 256)
    else (let pos = p - 6 in
        let room = ((pos / 8 + 1) * 8 - pos) % 256 in
        (pos, pos / 8, pos % 8, (if ltb room 6 then room else 6)))

-- The bits at these positions.
pub read_window : Bytes → ℕ × ℕ × ℕ × ℕ → Option (ℕ × ℕ)
read_window src (pos, i, j, blen) = do
  c ← get_elem? src i
  let b = bit_and (c / 2 ^ byte_sub (byte_sub 8 j) blen) (2 ^ blen - 1)
  if ltb blen 6 && ltb 0 pos
      then (let blen1 = byte_sub 6 blen in
          get_elem? src (i + 1) >>= λ d.
          some (bit_or (b * 2 ^ blen1 % 256) (d / 2 ^ byte_sub 8 blen1), pos))
      else some (b, pos)

-- The digit, and the new position; the code's second result is whether that is above 0.
pub next : Bytes → ℕ → Option (ℕ × ℕ)
unfolding window read_window
next src p = do
  (b, pos) ← read_window src (window p)
  if bit_and b compact_mask == compact_mask
      then some (bit_and b mask5bits, (if ltb 0 pos || ltb mask5bits b then pos + 1 else pos))
      else some (b, pos)

-- `encode`, the first version's loop: at least one digit.
pub encode_v1 : ℕ → Bytes → Bytes → ℕ → Bytes → Option Bytes
encode_v1 zero src table p dst = none
encode_v1 (suc fuel) src table p dst = next src p >>= λ r.
    let (x, pos) = r in
    get_elem? table x >>= λ c.
    let rest = encode_v1 fuel src table pos (dst ++ (c ∷ [])) in
    if ltb 0 pos then rest else some (dst ++ (c ∷ []))

-- `_encodeV1` and `_encodeV2`. A round takes five bits at least, so a round for each bit is enough.
unfoldable pub encode_bytes_v1 : Encoding → Bytes → Option Bytes
unfolding encode_v1 next
encode_bytes_v1 enc src =
    if is_empty src
    then some []
    else encode_v1 (length src * 8) src enc.encode_table (length src * 8) []

unfoldable pub encode_bytes_v2 : Encoding → Bytes → Option Bytes
unfolding encode_v2 get6bits compact
encode_bytes_v2 enc src =
    if is_empty src
    then some []
    else encode_v2 (length src * 8) src enc.encode_table (length src * 8) []

-- `Encode`.
unfoldable pub encode : Encoding → Bytes → Option Bytes
unfolding encode_bytes_v2
encode enc src = encode_bytes_v2 enc src

-- `EncodeToString`: a string is its bytes.
unfoldable pub encode_to_string : Encoding → Bytes → Option Bytes
encode_to_string enc src = encode enc src

-- `EncodeToBuf`: the contents of the slice that it returns.
unfoldable pub encode_to_buf : Encoding → Bytes → Bytes → Option Bytes
unfolding encode_v2 get6bits compact
encode_to_buf enc dst src =
    if is_empty src
    then some []
    else encode_v2 (length src * 8) src enc.encode_table (length src * 8) dst
