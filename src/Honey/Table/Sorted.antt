-- ===== src/Honey/Table/Sorted.antt =====
-- honey/tables.go: `SortedIndex`, whose rows have empty values.
use yellowstone_common.Common.{Bool, false, Option, [], Bytes}
use yellowstone_common.Common.Outcome.{Outcome}
use yellowstone_common.Honey.Store.{Error, Store}
use yellowstone_common.Honey.Table
use yellowstone_common.Honey.Table.{
  Utils, Table, new_table, PaginationToken, slice_from, each_prefix_keys,
}

abbrev pub SortedIndex : Type 0
SortedIndex = Table

unfoldable pub new : Bytes → Outcome Error SortedIndex
new table_id = new_table table_id

module _ (st : Store) (utils : Utils) where
  open st use {Txn}

  unfoldable pub list_in_range :
      {S : Type 0}
      → SortedIndex
      → Txn
      → Option Bytes
      → Option Bytes
      → (Bytes → S → Outcome Error (Bool × S))
      → S
      → Outcome Error S
  list_in_range i txn lower upper fn s =
      Table.list_in_range st utils i txn lower upper false (λ key value s'. fn key s') s

  unfoldable pub add : SortedIndex → Txn → Bytes → Outcome Error Txn
  add i txn item = Table.set st utils i txn item []

  unfoldable pub delete : SortedIndex → Txn → Bytes → Outcome Error Txn
  delete i txn item = Table.delete st utils i txn item

  unfoldable pub not_empty : SortedIndex → Txn → Bytes → Outcome Error Bool
  not_empty i txn pk = Table.prefix_exists st utils i txn pk
