-- ===== src/Honey/Table/Uint64.antt =====
-- honey/tables.go: `Uint64Table`, and its values in big-endian order. `binary.BigEndian.Uint64` panics on
-- less than eight bytes.
use yellowstone_common.Common.{
  ◌+◌, ◌*◌, ◌/◌, ◌%◌, ◌^◌, suc, zero, ℕ, Option, none, some, List, [], ◌∷◌, Bytes,
}
use yellowstone_common.Common.Int.{ℤ}
use yellowstone_common.Common.Outcome.{Outcome, ◌>>=◌, or_panic}
use yellowstone_common.Honey.Store.{Error, Store}
use yellowstone_common.Honey.Table
use yellowstone_common.Honey.Table.{Utils, Table, PaginationToken, new_table, each_prefix}
use yellowstone_common.Honey.Table.Pages.{Page, list_prefixed_paginated, append_decoded, page}

-- The number of the first `n` bytes, onto `acc`.
unfoldable pub big_endian : ℕ → ℕ → Bytes → Option ℕ
big_endian zero acc b = some acc
big_endian (suc n) acc [] = none
big_endian (suc n) acc (x ∷ b) = big_endian n (acc * 256 + x) b

-- The last `n` bytes of a number.
unfoldable pub put_big_endian : ℕ → ℕ → Bytes
put_big_endian zero u = []
put_big_endian (suc n) u = (u / 256 ^ n % 256) ∷ put_big_endian n u

unfoldable pub bytes_to_uint64 : Bytes → Outcome Error ℕ
unfolding big_endian
bytes_to_uint64 b = or_panic (big_endian 8 0 b)

unfoldable pub uint64_to_bytes : ℕ → Bytes
unfolding put_big_endian
uint64_to_bytes u = put_big_endian 8 u

abbrev pub Uint64Table : Type 0
Uint64Table = Table

abbrev pub ListPaginatedUint64Result : Type 0
ListPaginatedUint64Result = Page ℕ

unfoldable pub new : Bytes → Outcome Error Uint64Table
new table_id = new_table table_id

module _ (st : Store) (utils : Utils) where
  open st use {Txn}

  unfoldable pub get : Uint64Table → Txn → Bytes → Outcome Error ℕ
  get t txn key = Table.get st utils t txn key >>= bytes_to_uint64

  unfoldable pub set : Uint64Table → Txn → Bytes → ℕ → Outcome Error Txn
  set t txn key value = Table.set st utils t txn key (uint64_to_bytes value)

  unfoldable pub delete : Uint64Table → Txn → Bytes → Outcome Error Txn
  delete t txn key = Table.delete st utils t txn key

  unfoldable pub list_all : Uint64Table → Txn → Bytes → Outcome Error (List ℕ)
  list_all t txn prefix = each_prefix st utils t txn prefix (append_decoded (bytes_to_uint64)) []

  unfoldable pub list_paginated :
      Uint64Table
      → Txn
      → Bytes
      → Option PaginationToken
      → ℤ
      → Outcome Error ListPaginatedUint64Result
  list_paginated t txn prefix from limit =
      list_prefixed_paginated st utils t txn prefix from limit >>= λ raw.
      page (bytes_to_uint64) raw (raw.values)
