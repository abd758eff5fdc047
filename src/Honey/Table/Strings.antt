-- ===== src/Honey/Table/Strings.antt =====
-- honey/tables.go: `StringTable`. A Go string is its bytes.
use yellowstone_common.Common.{Bool, Option, List, [], Bytes}
use yellowstone_common.Common.Int.{ℤ}
use yellowstone_common.Common.Outcome.{Outcome, ok, ◌>>=◌}
use yellowstone_common.Honey.Store.{Error, Store}
use yellowstone_common.Honey.Table
use yellowstone_common.Honey.Table.{Utils, Table, PaginationToken, new_table, each_prefix}
use yellowstone_common.Honey.Table.Pages.{Page, list_prefixed_paginated, append_decoded, page}

abbrev pub StringTable : Type 0
StringTable = Table

abbrev pub ListPaginatedStringResult : Type 0
ListPaginatedStringResult = Page Bytes

unfoldable pub new : Bytes → Outcome Error StringTable
new table_id = new_table table_id

module _ (st : Store) (utils : Utils) where
  open st use {Txn}

  unfoldable pub get : StringTable → Txn → Bytes → Outcome Error Bytes
  get t txn key = Table.get st utils t txn key >>= (λ v. ok v)

  unfoldable pub set : StringTable → Txn → Bytes → Bytes → Outcome Error Txn
  set t txn key value = Table.set st utils t txn key (value)

  unfoldable pub delete : StringTable → Txn → Bytes → Outcome Error Txn
  delete t txn key = Table.delete st utils t txn key

  unfoldable pub list_all : StringTable → Txn → Bytes → Outcome Error (List Bytes)
  list_all t txn prefix = each_prefix st utils t txn prefix (append_decoded ((λ v. ok v))) []

  unfoldable pub list_in_range :
      {S : Type 0}
      → StringTable
      → Txn
      → Option Bytes
      → Option Bytes
      → Bool
      → (Bytes → S → Outcome Error (Bool × S))
      → S
      → Outcome Error S
  list_in_range t txn lower upper reverse fn s =
      Table.list_in_range st utils t txn lower upper reverse (λ key value s'. fn value s') s

  unfoldable pub list_paginated :
      StringTable
      → Txn
      → Bytes
      → Option PaginationToken
      → ℤ
      → Outcome Error ListPaginatedStringResult
  list_paginated t txn prefix from limit =
      list_prefixed_paginated st utils t txn prefix from limit >>= λ raw.
      page ((λ v. ok v)) raw (raw.values)
