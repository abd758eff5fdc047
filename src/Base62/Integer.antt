-- ===== src/Base62/Integer.antt =====
-- encoding/base62/integer.go: integers in base 62. A `uint64` is a number below 2 ^ 64, and an
-- `int64` the integer that its bit pattern stands for.
pub mod Laws
pub mod Bounds
use yellowstone_common.Common.{
  ℕ, zero, suc, ◌+◌, ◌-◌, ◌*◌, ◌/◌, ◌%◌, ◌^◌, ◌<◌, ◌≡◌, arith, ltb, ◌==◌, if◌then◌else◌, Option,
  none, some, [], ◌∷◌, ◌++◌, Bytes, length, get_elem?, set, drop,
}
use yellowstone_common.Common.Options
use yellowstone_common.Common.Int.{ℤ, to_u64, to_i64}
use yellowstone_common.Common.Outcome.{Outcome, ok, err, ◌>>=◌, or_panic}
use yellowstone_common.Base62.{Encoding}
use yellowstone_common.Base62.Decoder.{Error, corrupt_input, zeros}

-- The loop of `AppendUint` over the buffer `buf`, filled from its end. `none` is an index out of
-- range (or fuel that ran out).
pub append_loop : ℕ → Bytes → ℕ → ℕ → Bytes → Option (ℕ × Bytes)
append_loop fuel table zero i buf = some (i, buf)
append_loop zero table (suc n) i buf = none
append_loop (suc fuel) table (suc n) zero buf = none
append_loop (suc fuel) table (suc n) (suc i) buf = Options.◌>>=◌ (get_elem? table (suc n % 62)) λ c.
    let rest = append_loop fuel table (suc n / 62) i (set buf i c) in
    if ltb i (length buf) then rest else none

-- `AppendUint`. The number at least halves in each round, so 64 rounds are enough.
unfoldable pub append_uint : Encoding → Bytes → ℕ → Option Bytes
unfolding append_loop
append_uint enc dst num =
    if num == 0
    then Options.◌>>=◌ (get_elem? enc.encode_table 0) (λ c. some (dst ++ (c ∷ [])))
    else Options.◌>>=◌ (append_loop 64 enc.encode_table num 11 (zeros 11))
        (λ r. let (i, buf) = r in some (dst ++ drop i buf))

-- `AppendInt`: the conversion `uint64(num)`, and `AppendUint`.
unfoldable pub append_int : Encoding → Bytes → ℤ → Option Bytes
append_int enc dst num = append_uint enc dst (to_u64 num)

-- `FormatInt`.
unfoldable pub format_int : Encoding → ℤ → Option Bytes
format_int enc num = append_uint enc [] (to_u64 num)

-- `FormatUint`.
unfoldable pub format_uint : Encoding → ℕ → Option Bytes
unfolding append_uint
format_uint enc num = append_uint enc [] num

-- `ParseUint`: the loop from position `i`, with the number so far.
pub parse_loop : Bytes → ℕ → Bytes → ℕ → Outcome Error ℕ
parse_loop map i [] num = ok num
parse_loop map i (c ∷ cs) num = or_panic (get_elem? map c) >>= λ x.
    let rest = parse_loop map (i + 1) cs ((num * 62 + x) % 2 ^ 64) in
    if x == 0xFF then err (corrupt_input i) else rest

unfoldable pub parse_uint : Encoding → Bytes → Outcome Error ℕ
unfolding parse_loop
parse_uint enc src = parse_loop enc.decode_map 0 src 0

-- `ParseInt`: `ParseUint`, and the conversion `int64(num)`.
unfoldable pub parse_int : Encoding → Bytes → Outcome Error ℤ
parse_int enc src = parse_uint enc src >>= λ num. ok (to_i64 num)
