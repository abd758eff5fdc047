-- ===== src/Honey/Portable.antt =====
-- honey/portable.go. The store (github.com/evrblk/monstera/store), the stream format
-- (github.com/evrblk/fenestra) and the tables of a core are parameters. A reader is what its successive
-- `Next` give, which is finite. An error carries the store as it is left.
pub mod Replay
pub mod Chunks
pub mod Streams
pub mod Merge
pub mod Split
pub mod Cells
mod Runs
use yellowstone_common.Common.{
  ℕ, ◌+◌, leb, if◌then◌else◌, Bool, true, false, ◌&&◌, Option, none, some, List, [], ◌∷◌, Bytes,
}
use yellowstone_common.Common.Compare.{equal}
use yellowstone_common.Common.Outcome.{Outcome, ok, err, panic, ◌>>=◌}
use yellowstone_common.Common.Text.{codes}
use yellowstone_common.Honey.Store
use yellowstone_common.Honey.Store.{Visit}

-- `*store.BadgerStore`: `View`, `Update`, `Commit` of one of its transactions, and `Flatten`.
pub record Badger : Type 1 where
  pub Db : Type 0
  pub Txn : Type 0
  pub view : Db → Txn
  pub update : Db → Txn
  pub commit : Db → Txn → Outcome Store.Error Db
  pub flatten : Db → Outcome Store.Error Db

-- `cluster.ShardKey` and its order.
pub record ShardKeys : Type 1 where
  pub ShardKey : Type 0
  pub le : ShardKey → ShardKey → Bool

pub record ShardRange (keys : ShardKeys) : Type 0 where
  pub lower : keys.ShardKey
  pub upper : keys.ShardKey

unfoldable pub owns : (keys : ShardKeys) → ShardRange keys → keys.ShardKey → Bool
owns keys r shard_key = keys.le r.lower shard_key && keys.le shard_key r.upper

-- A table's `RestoreEntity` writes to the transaction, and says whether the entity was kept.
pub record PortableTable (b : Badger) (keys : ShardKeys) : Type 1 where
  pub each_entity : (S : Type 0) → b.Txn → Visit S → S → Outcome Store.Error S
  pub restore_entity : b.Txn → Bytes → Bytes → ShardRange keys → Outcome Store.Error (b.Txn × Bool)
  pub clear : b.Db → Outcome (b.Db × Store.Error) b.Db

pub record Section (b : Badger) (keys : ShardKeys) : Type 1 where
  pub name : Bytes
  pub table : PortableTable b keys

-- `fenestra.Frame`. Other kinds than the three are passed over.
pub data Frame : Type 0 where
  meta : Bytes → Bytes → Frame
  table : Bytes → Frame
  row : Bytes → Bytes → Frame
  other_kind : Frame

-- What a `fenestra.Reader` gives: frames, and then `io.EOF` or another error.
pub data Stream : Type 0 where
  eof : Stream
  broken : Store.Error → Stream
  frame : Frame → Stream → Stream

-- `fenestra.Writer`, and `Close`, with what it has written in the end.
pub record Fenestra : Type 1 where
  pub Writer : Type 0
  pub new : Writer
  pub meta : Writer → Bytes → Bytes → Outcome Store.Error Writer
  pub table : Writer → Bytes → Bool → Outcome Store.Error Writer
  pub row : Writer → Bytes → Bytes → Outcome Store.Error Writer
  pub close : Writer → Outcome Store.Error Stream

pub data Error : Type 0 where
  failed : Store.Error → Error
  unknown_table : Bytes → Error
  restoring : Bytes → Store.Error → Error

abbrev pub restore_txn_chunk : ℕ
restore_txn_chunk = 512

-- A failure, with the store as it is left.
abbrev pub with_db {ℓ} : {D E F A : Type ℓ} → D → (E → F) → Outcome E A → Outcome (D × F) A
with_db db f (ok a) = ok a
with_db db f (err e) = err (db, f e)
with_db db f panic = panic

module _ (b : Badger) (keys : ShardKeys) where
  open b use {Db, Txn, update, commit, flatten}

  module _ (fw : Fenestra) where
    -- `Record`, as the callback of `EachEntity`.
    unfoldable pub write_row : Visit fw.Writer
    write_row key value w = fw.row w key value >>= λ w'. ok (true, w')

    unfoldable pub write_sections :
        Txn → List (Section b keys) → fw.Writer → Outcome Store.Error fw.Writer
    write_sections txn [] w = ok w
    write_sections txn (sec ∷ sections) w = fw.table w sec.name true >>= λ w'.
        sec.table.each_entity fw.Writer txn write_row w' >>= λ w''. write_sections txn sections w''

    unfoldable pub write_snapshot : Txn → Bytes → List (Section b keys) → Outcome Store.Error Stream
    unfolding write_sections
    write_snapshot txn core_name sections = fw.meta fw.new (codes "core") core_name >>= λ w.
        write_sections txn sections w >>= λ w'. fw.close w'

  -- `Snapshot`, with the view that it pins.
  pub record Snapshot : Type 1 where
    pub txn : Txn
    pub core_name : Bytes
    pub sections : List (Section b keys)

  unfoldable pub new_snapshot : Db → Bytes → List (Section b keys) → Snapshot
  new_snapshot db core_name sections = record {
    txn = b.view db;
    core_name = core_name;
    sections = sections;
  }

  unfoldable pub write : Fenestra → Snapshot → Outcome Store.Error Stream
  unfolding write_snapshot
  write fw s = write_snapshot fw s.txn s.core_name s.sections

  -- The first loop of `RestoreSnapshot`.
  unfoldable pub clear_all : List (Section b keys) → Db → Outcome (Db × Error) Db
  clear_all [] db = ok db
  clear_all (sec ∷ sections) db =
      (elim (sec.table.clear db) as (λ o. Outcome (Db × Error) Db) [
        | ok db' ↦ ok db'
        | err (db', e) ↦ err (db', failed e)
        | panic ↦ panic
      ])
      >>= λ db'. clear_all sections db'

  -- The map `byName`: of sections with the same name, the last.
  unfoldable pub by_name : List (Section b keys) → Bytes → Option (PortableTable b keys)
  by_name [] n = none
  by_name (sec ∷ sections) n = elim (by_name sections n) [
    | some t ↦ some t
    | none ↦ if equal n sec.name then some sec.table else none
  ]

  -- The variables of `RestoreSnapshot`, and the store.
  pub record Progress : Type 0 where
    pub db : Db
    pub txn : Txn
    pub pending : ℕ

  -- The closure `commit`.
  unfoldable pub commit_chunk : Progress → Outcome (Db × Error) Progress
  commit_chunk p = with_db p.db failed (commit p.db p.txn) >>= λ db.
      ok record { db = db; txn = update db; pending = 0 }

  -- What follows `RestoreEntity`.
  unfoldable pub count_kept : Progress → Txn → Bool → Outcome (Db × Error) Progress
  unfolding commit_chunk
  count_kept p txn kept =
      let p' = record p { txn = txn; pending = p.pending + 1 } in
      if kept
      then (if leb restore_txn_chunk p'.pending then commit_chunk p' else ok p')
      else ok (record p { txn = txn })

  module _ (sections : List (Section b keys)) (bounds : ShardRange keys) where
    unfoldable pub restore_row : Bytes → Bytes → Bytes → Progress → Outcome (Db × Error) Progress
    unfolding count_kept
    restore_row name key value p = elim (by_name sections name) [
      | none ↦ err (p.db, unknown_table name)
      | some tbl ↦
          with_db p.db (restoring name) (tbl.restore_entity p.txn key value bounds) >>= λ r.
          let (txn, kept) = r in count_kept p txn kept
    ]

    -- The loop over the frames of one reader; `name` is its variable `table`.
    unfoldable pub restore_frames : Bytes → Stream → Progress → Outcome (Db × Error) Progress
    restore_frames name eof p = ok p
    restore_frames name (broken e) p = err (p.db, failed e)
    restore_frames name (frame (meta k v) s) p = restore_frames name s p
    restore_frames name (frame (table n) s) p = restore_frames n s p
    restore_frames name (frame (row k v) s) p =
        restore_row name k v p >>= λ p'. restore_frames name s p'
    restore_frames name (frame other_kind s) p = restore_frames name s p

    unfoldable pub restore_readers : List Stream → Progress → Outcome (Db × Error) Progress
    restore_readers [] p = ok p
    restore_readers (r ∷ readers) p = restore_frames [] r p >>= λ p'. restore_readers readers p'

    unfoldable pub restore_snapshot : Db → List Stream → Outcome (Db × Error) Db
    restore_snapshot db readers = clear_all sections db >>= λ db1.
        restore_readers readers (record { db = db1; txn = update db1; pending = 0 }) >>= λ p.
        with_db p.db failed (commit p.db p.txn) >>= λ db2. with_db db2 failed (flatten db2)
