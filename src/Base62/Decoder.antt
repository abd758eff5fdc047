-- ===== src/Base62/Decoder.antt =====
-- The decoder of encoding/base62/base62.go. `panic` is an index out of range.
pub mod Undo
pub mod Buffer
use yellowstone_common.Common.{
  ℕ, zero, suc, ◌+◌, ◌-◌, ◌*◌, ◌/◌, ◌%◌, ◌^◌, bit_and, bit_or, Bool, [], ◌∷◌, ◌++◌, Bytes, length,
  is_empty, get_elem?, set, take, drop, replicate, ltb, ◌==◌, if◌then◌else◌,
}
use yellowstone_common.Common.Outcome.{Outcome, ok, err, panic, ◌>>=◌, or_panic}
use yellowstone_common.Base62.{Encoding, compact_mask}

-- `CorruptInputError`: the position of the bad byte.
pub data Error : Type 0 where
  corrupt_input : ℕ → Error

-- `bits.Len8`: the number of bits of a byte.
pub len8 : ℕ → ℕ
len8 x =
    if x == 0
    then 0
    else if ltb x 2
    then 1
    else if ltb x 4
    then 2
    else if ltb x 8
    then 3
    else if ltb x 16
    then 4
    else if ltb x 32
    then 5
    else if ltb x 64
    then 6
    else if ltb x 128
    then 7
    else 8

-- By how much `pos` grows.
pub digit_width : Bool → ℕ → ℕ
unfolding len8
digit_width last x =
    if last then len8 x else if bit_and x compact_mask == compact_mask then 5 else 6

-- `idx--; dst[idx] = byte(b)`
pub put_byte : ℕ → Bytes → ℕ → Outcome Error (ℕ × Bytes)
put_byte zero dst b = panic
put_byte (suc j) dst b = if ltb j (length dst) then ok (j, set dst j (b % 256)) else panic

-- `decoder.decode`: `i` is the loop's index and the list is what `range dec` has not reached.
-- `b` stays below 2 ^ 16, so the machine's `int` does not overflow.
unfoldable pub decode_loop : Bytes → ℕ → Bytes → ℕ → Bytes → ℕ → ℕ → Outcome Error (ℕ × Bytes)
unfolding put_byte digit_width
decode_loop table i [] idx dst pos b = if ltb 0 pos then put_byte idx dst b else ok (idx, dst)
decode_loop table i (c ∷ cs) idx dst pos b = or_panic (get_elem? table c) >>= λ x.
    let b' = bit_or b (x * 2 ^ pos) in
    let pos' = (pos + digit_width (length cs == 0) x) % 256 in
    let stay = decode_loop table (i + 1) cs idx dst pos' b' in
    let emit : Outcome Error (ℕ × Bytes) = put_byte idx dst b' >>= λ r.
    let (idx', dst') = r in decode_loop table (i + 1) cs idx' dst' (pos' % 8) (b' / 2 ^ 8) in
    if x == 0xFF then err (corrupt_input i) else if ltb pos' 8 then stay else emit

-- `make([]byte, n)`
abbrev pub zeros : ℕ → Bytes
zeros n = replicate n 0

-- `Decode`: a buffer of zeros, and its part from the final index on.
unfoldable pub decode : Encoding → Bytes → Outcome Error Bytes
unfolding decode_loop
decode enc src =
    if is_empty src
    then ok []
    else (let n = length src * 6 / 8 + 1 in
        decode_loop enc.decode_map 0 src n (zeros n) 0 0 >>= λ r.
        let (idx, dst) = r in ok (drop idx dst))

-- `DecodeString`: a string is its bytes.
unfoldable pub decode_string : Encoding → Bytes → Outcome Error Bytes
decode_string enc src = decode enc src

-- A slice: the memory from its first element to its capacity, and its length.
pub record Slice : Type 0 where
  pub memory : Bytes
  pub len : ℕ

abbrev pub contents : Slice → Bytes
contents s = take s.len s.memory

-- `copy(m, m[idx:])`: the rest of `m` stays as it is.
abbrev shift_down : ℕ → Bytes → Bytes
shift_down idx m = drop idx m ++ drop (length m - idx) m

-- `DecodeToBuf`.
unfoldable pub decode_to_buf : Encoding → Slice → Bytes → Outcome Error Slice
unfolding decode_loop
decode_to_buf enc dst src =
    if is_empty src
    then ok (record { memory = []; len = 0 })
    else (let possible_len = length src * 6 / 8 + 1 in
        let memory : Bytes =
          if ltb (length dst.memory) (dst.len + possible_len)
          then contents dst ++ zeros possible_len
          else dst.memory in
        let spare : Bytes = drop dst.len memory in
        decode_loop enc.decode_map 0 src (length spare) spare 0 0 >>= λ r.
        let (idx, spare') = r in
        ok (record {
          memory = take dst.len memory ++ (if idx == 0 then spare' else shift_down idx spare');
          len = length memory - idx;
        }))
