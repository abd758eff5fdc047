-- ===== src/Honey/Table/OneToManySorted.antt =====
-- honey/tables.go: `OneToManySortedIndex`, whose rows have empty values.
use yellowstone_common.Common.{Bool, false, length, Option, some, [], Bytes}
use yellowstone_common.Common.Int.{ℤ}
use yellowstone_common.Common.Outcome.{Outcome, ◌>>=◌}
use yellowstone_common.Honey.Store.{Error, Store}
use yellowstone_common.Honey.Table
use yellowstone_common.Honey.Table.{
  Utils, Table, new_table, PaginationToken, slice_from, each_prefix_keys,
}
use yellowstone_common.Honey.Table.Pages.{Page, list_prefixed_paginated, page}

abbrev pub OneToManySortedIndex : Type 0
OneToManySortedIndex = Table

abbrev pub ListPaginatedBytesResult : Type 0
ListPaginatedBytesResult = Page Bytes

unfoldable pub new : Bytes → Outcome Error OneToManySortedIndex
new table_id = new_table table_id

module _ (st : Store) (utils : Utils) where
  open st use {Txn}

  unfoldable pub list_all :
      {S : Type 0}
      → OneToManySortedIndex
      → Txn
      → Bytes
      → (Bytes → S → Outcome Error (Bool × S))
      → S
      → Outcome Error S
  list_all i txn pk fn s =
      each_prefix_keys st utils i txn pk
        (λ key s'. slice_from (length pk) key >>= λ item. fn item s') s

  unfoldable pub list_paginated :
      OneToManySortedIndex
      → Txn
      → Bytes
      → Option PaginationToken
      → ℤ
      → Outcome Error ListPaginatedBytesResult
  list_paginated i txn prefix from limit =
      list_prefixed_paginated st utils i txn prefix from limit >>= λ raw.
      page (λ key. slice_from (length prefix) key) raw (raw.keys)

  unfoldable pub add : OneToManySortedIndex → Txn → Bytes → Bytes → Outcome Error Txn
  add i txn pk item = Table.set st utils i txn (utils.concat_bytes pk item) []

  unfoldable pub delete : OneToManySortedIndex → Txn → Bytes → Bytes → Outcome Error Txn
  delete i txn pk item = Table.delete st utils i txn (utils.concat_bytes pk item)

  unfoldable pub not_empty : OneToManySortedIndex → Txn → Bytes → Outcome Error Bool
  not_empty i txn pk = Table.prefix_exists st utils i txn pk

  unfoldable pub list_in_range :
      {S : Type 0}
      → OneToManySortedIndex
      → Txn
      → Bytes
      → Bytes
      → Bytes
      → (Bytes → S → Outcome Error (Bool × S))
      → S
      → Outcome Error S
  list_in_range i txn pk lower upper fn s =
      Table.list_in_range st utils i txn (some (utils.concat_bytes pk lower))
        (some (utils.concat_bytes pk upper)) false (λ key value s'. fn key s') s
