-- ===== src/Honey/Table/Binary.antt =====
-- honey/tables.go: `BinaryTable`. The methods of the messages (`MarshalBinary`, `UnmarshalBinary`) are
-- parameters.
use yellowstone_common.Common.{Bool, Option, List, [], Bytes}
use yellowstone_common.Common.Int.{ℤ}
use yellowstone_common.Common.Outcome.{Outcome, ◌>>=◌}
use yellowstone_common.Honey.Store.{Error, Store}
use yellowstone_common.Honey.Table
use yellowstone_common.Honey.Table.{Utils, Table, PaginationToken, new_table, each_prefix}
use yellowstone_common.Honey.Table.Pages.{Page, list_prefixed_paginated, append_decoded, page}

abbrev pub BinaryTable : Type 0
BinaryTable = Table

unfoldable pub new : Bytes → Outcome Error BinaryTable
new table_id = new_table table_id

module _ {U : Type 0} (marshal : U → Outcome Error Bytes) (unmarshal : Bytes → Outcome Error U)
    (st : Store) (utils : Utils) where
  open st use {Txn}

  unfoldable pub get : BinaryTable → Txn → Bytes → Outcome Error U
  get t txn key = Table.get st utils t txn key >>= unmarshal

  unfoldable pub set : BinaryTable → Txn → Bytes → U → Outcome Error Txn
  set t txn key message = marshal message >>= λ value. Table.set st utils t txn key value

  unfoldable pub delete : BinaryTable → Txn → Bytes → Outcome Error Txn
  delete t txn key = Table.delete st utils t txn key

  unfoldable pub list_all : BinaryTable → Txn → Bytes → Outcome Error (List U)
  list_all t txn prefix = each_prefix st utils t txn prefix (append_decoded (unmarshal)) []

  unfoldable pub list_in_range :
      {S : Type 0}
      → BinaryTable
      → Txn
      → Option Bytes
      → Option Bytes
      → Bool
      → (U → S → Outcome Error (Bool × S))
      → S
      → Outcome Error S
  list_in_range t txn lower upper reverse fn s =
      Table.list_in_range st utils t txn lower upper reverse
        (λ key value s'. (unmarshal) value >>= λ a. fn a s') s

  unfoldable pub list_paginated :
      BinaryTable → Txn → Bytes → Option PaginationToken → ℤ → Outcome Error (Page U)
  list_paginated t txn prefix from limit =
      list_prefixed_paginated st utils t txn prefix from limit >>= λ raw.
      page (unmarshal) raw (raw.values)
