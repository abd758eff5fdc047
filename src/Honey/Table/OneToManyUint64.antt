-- ===== src/Honey/Table/OneToManyUint64.antt =====
-- honey/tables.go: `OneToManyUint64Index`, whose rows have empty values.
use yellowstone_common.Common.{ℕ, Bool, length, Option, [], Bytes}
use yellowstone_common.Common.Int.{ℤ}
use yellowstone_common.Common.Outcome.{Outcome, ◌>>=◌}
use yellowstone_common.Honey.Store.{Error, Store}
use yellowstone_common.Honey.Table
use yellowstone_common.Honey.Table.{
  Utils, Table, new_table, PaginationToken, slice_from, each_prefix_keys,
}
use yellowstone_common.Honey.Table.Pages.{list_prefixed_paginated, page}
use yellowstone_common.Honey.Table.Uint64.{ListPaginatedUint64Result, bytes_to_uint64}

abbrev pub OneToManyUint64Index : Type 0
OneToManyUint64Index = Table

unfoldable pub new : Bytes → Outcome Error OneToManyUint64Index
new table_id = new_table table_id

module _ (st : Store) (utils : Utils) where
  open st use {Txn}

  unfoldable pub list :
      {S : Type 0}
      → OneToManyUint64Index
      → Txn
      → Bytes
      → (ℕ → S → Outcome Error (Bool × S))
      → S
      → Outcome Error S
  list i txn pk fn s =
      each_prefix_keys st utils i txn pk
        (λ key s'. (slice_from (length pk) key >>= bytes_to_uint64) >>= λ item. fn item s') s

  unfoldable pub list_paginated :
      OneToManyUint64Index
      → Txn
      → Bytes
      → Option PaginationToken
      → ℤ
      → Outcome Error ListPaginatedUint64Result
  list_paginated i txn prefix from limit =
      list_prefixed_paginated st utils i txn prefix from limit >>= λ raw.
      page (λ key. (slice_from (length prefix) key >>= bytes_to_uint64)) raw (raw.keys)

  unfoldable pub add : OneToManyUint64Index → Txn → Bytes → ℕ → Outcome Error Txn
  add i txn pk item = Table.set st utils i txn (utils.concat_uint64 pk item) []

  unfoldable pub delete : OneToManyUint64Index → Txn → Bytes → ℕ → Outcome Error Txn
  delete i txn pk item = Table.delete st utils i txn (utils.concat_uint64 pk item)

  unfoldable pub not_empty : OneToManyUint64Index → Txn → Bytes → Outcome Error Bool
  not_empty i txn pk = Table.prefix_exists st utils i txn pk
