-- ===== src/Honey/Table/Uint32.antt =====
-- honey/tables.go: `Uint32Table`, and its values in big-endian order.
use yellowstone_common.Common.{ℕ, Option, List, [], Bytes}
use yellowstone_common.Common.Int.{ℤ}
use yellowstone_common.Common.Outcome.{Outcome, ◌>>=◌, or_panic}
use yellowstone_common.Honey.Store.{Error, Store}
use yellowstone_common.Honey.Table
use yellowstone_common.Honey.Table.{Utils, Table, PaginationToken, new_table, each_prefix}
use yellowstone_common.Honey.Table.Pages.{Page, list_prefixed_paginated, append_decoded, page}
use yellowstone_common.Honey.Table.Uint64.{big_endian, put_big_endian}

unfoldable pub bytes_to_uint32 : Bytes → Outcome Error ℕ
unfolding big_endian
bytes_to_uint32 b = or_panic (big_endian 4 0 b)

unfoldable pub uint32_to_bytes : ℕ → Bytes
unfolding put_big_endian
uint32_to_bytes u = put_big_endian 4 u

abbrev pub Uint32Table : Type 0
Uint32Table = Table

abbrev pub ListPaginatedUint32Result : Type 0
ListPaginatedUint32Result = Page ℕ

unfoldable pub new : Bytes → Outcome Error Uint32Table
new table_id = new_table table_id

module _ (st : Store) (utils : Utils) where
  open st use {Txn}

  unfoldable pub get : Uint32Table → Txn → Bytes → Outcome Error ℕ
  get t txn key = Table.get st utils t txn key >>= bytes_to_uint32

  unfoldable pub set : Uint32Table → Txn → Bytes → ℕ → Outcome Error Txn
  set t txn key value = Table.set st utils t txn key (uint32_to_bytes value)

  unfoldable pub delete : Uint32Table → Txn → Bytes → Outcome Error Txn
  delete t txn key = Table.delete st utils t txn key

  unfoldable pub list_all : Uint32Table → Txn → Bytes → Outcome Error (List ℕ)
  list_all t txn prefix = each_prefix st utils t txn prefix (append_decoded (bytes_to_uint32)) []

  unfoldable pub list_paginated :
      Uint32Table
      → Txn
      → Bytes
      → Option PaginationToken
      → ℤ
      → Outcome Error ListPaginatedUint32Result
  list_paginated t txn prefix from limit =
      list_prefixed_paginated st utils t txn prefix from limit >>= λ raw.
      page (bytes_to_uint32) raw (raw.values)
