-- ===== src/Honey/Portable/Replay.antt =====
-- honey/portable.go: restoring against inserting the entities one by one, with no transactions.
use yellowstone_common.Common.{
  ℕ, ◌+◌, ◌≤◌, if◌then◌else◌, ◌≡◌, Bool, Option, none, some, List, [], ◌∷◌, Bytes,
}
use yellowstone_common.Common.Outcome.{Outcome, ok, err, panic, ◌>>=◌}
use yellowstone_common.Honey.Store
use yellowstone_common.Honey.Portable.{
  Badger, ShardKeys, ShardRange, PortableTable, Section, Stream, eof, broken, frame, meta, table,
  row, other_kind, Error, failed, unknown_table, restoring, restore_txn_chunk, by_name, Progress,
}

-- The rows of the store and of a transaction, and how many entities a transaction holds: `Update` starts
-- from the rows of the store and with no entity, `Commit` of at most `restore_txn_chunk` entities succeeds
-- and puts the transaction's rows there, and so does `Flatten` with the store's.
pub record Contents (b : Badger) : Type 1 where
  pub Rows : Type 0
  pub rows : b.Db → Rows
  pub contents : b.Txn → Rows
  pub contents-update : (db : b.Db) → contents (b.update db) ≡ rows db
  pub size : b.Txn → ℕ
  pub size-update : (db : b.Db) → size (b.update db) ≡ 0
  pub commits :
      (db : b.Db) (t : b.Txn)
      → size t ≤ restore_txn_chunk
      → (db' : b.Db) × (b.commit db t ≡ ok db') × (rows db' ≡ contents t)
  pub flattens : (db : b.Db) → (db' : b.Db) × (b.flatten db ≡ ok db') × (rows db' ≡ rows db)

-- An entity, with the name of the table whose section it stands in.
pub record Entity : Type 0 where
  pub name : Bytes
  pub key : Bytes
  pub entity : Bytes

-- The entities of a stream, behind the name of a table, and the error that it ends in.
abbrev pub entities : Bytes → Stream → List Entity
entities name eof = []
entities name (broken e) = []
entities name (frame (meta k v) s) = entities name s
entities name (frame (table n) s) = entities n s
entities name (frame (row k v) s) = record { name = name; key = k; entity = v } ∷ entities name s
entities name (frame other_kind s) = entities name s

abbrev pub ending : Stream → Option Store.Error
ending eof = none
ending (broken e) = some e
ending (frame f s) = ending s

module _ (b : Badger) (keys : ShardKeys) (view : Contents b) where
  open view use {Rows, rows, contents}

  -- How a table inserts an entity, by the rows alone; the second part says whether it was kept.
  pub record Inserts : Type 1 where
    pub insert :
        PortableTable b keys
        → Rows
        → Bytes
        → Bytes
        → ShardRange keys
        → Outcome Store.Error (Rows × Bool)

  -- `RestoreEntity` sees and changes only the rows, as `insert` says, and adds one entity if it keeps it.
  abbrev pub rows_of : Outcome Store.Error (b.Txn × Bool) → Outcome Store.Error (Rows × Bool)
  rows_of (ok (t, kept)) = ok (contents t, kept)
  rows_of (err e) = err e
  rows_of panic = panic

  pub record Follows (ins : Inserts) (p : PortableTable b keys) : Type 0 where
    pub restores :
        (t : b.Txn) (k v : Bytes) (bounds : ShardRange keys)
        → rows_of (p.restore_entity t k v bounds) ≡ ins.insert p (contents t) k v bounds
    pub grows :
        (t t' : b.Txn) (k v : Bytes) (bounds : ShardRange keys) (kept : Bool)
        → p.restore_entity t k v bounds ≡ ok (t', kept)
        → view.size t' ≤ view.size t + (if kept then 1 else 0)

  -- What is left of an outcome without the store: the rows, or the error.
  abbrev pub outcome_rows : Outcome (b.Db × Error) (Progress b keys) → Outcome Error Rows
  outcome_rows (ok p) = ok (contents p.txn)
  outcome_rows (err (db, e)) = err e
  outcome_rows panic = panic

  abbrev pub final_rows : Outcome (b.Db × Error) b.Db → Outcome Error Rows
  final_rows (ok db) = ok (rows db)
  final_rows (err (db, e)) = err e
  final_rows panic = panic

  module _ (ins : Inserts) (sections : List (Section b keys)) (bounds : ShardRange keys) where
    abbrev pub inserted : Bytes → Outcome Store.Error (Rows × Bool) → Outcome Error Rows
    inserted name (ok (m, kept)) = ok m
    inserted name (err e) = err (restoring name e)
    inserted name panic = panic

    -- One entity, into the last section of its name.
    abbrev pub replay_one : Entity → Rows → Outcome Error Rows
    replay_one e m = elim (by_name b keys sections e.name) [
      | none ↦ err (unknown_table e.name)
      | some p ↦ inserted e.name (ins.insert p m e.key e.entity bounds)
    ]

    -- The entities in order, until one fails.
    abbrev pub replay : List Entity → Rows → Outcome Error Rows
    replay [] m = ok m
    replay (e ∷ es) m = replay_one e m >>= λ m'. replay es m'

    -- And then the error that the stream ends in.
    abbrev pub at_end : Option Store.Error → Rows → Outcome Error Rows
    at_end none m = ok m
    at_end (some e) m = err (failed e)

    abbrev pub replay_readers : List Stream → Rows → Outcome Error Rows
    replay_readers [] m = ok m
    replay_readers (s ∷ ss) m =
        replay (entities [] s) m >>= λ m'. at_end (ending s) m' >>= λ m''. replay_readers ss m''
