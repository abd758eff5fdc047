-- ===== src/Honey/Portable/Chunks.antt =====
-- honey/portable.go: the chunks in which `RestoreSnapshot` commits.
use yellowstone_common.Common.{
  ◌+◌, ◌≤◌, ◌<◌, leb, if◌then◌else◌, ◌≡◌, refl, ap, ◌∙◌, arith, Bool, true, false, some, List, [],
  ◌∷◌, Bytes, Bool-cases, Option-cases, inl, inr,
}
use yellowstone_common.Common.Outcome.{Outcome, ok, err, panic, ◌>>=◌}
use yellowstone_common.Honey.Store
use yellowstone_common.Honey.Portable.{
  Badger, ShardKeys, ShardRange, PortableTable, Section, Stream, eof, broken, frame, meta, table,
  row, other_kind, Error, failed, restoring, restore_txn_chunk, with_db, clear_all, by_name,
  Progress, commit_chunk, count_kept, restore_row, restore_frames, restore_readers,
  restore_snapshot,
}
use yellowstone_common.Honey.Portable.Replay.{
  Contents, entities, ending, Inserts, Follows, rows_of, outcome_rows, final_rows, inserted,
  replay_one, replay, at_end, replay_readers,
}

-- What holds of the value of an outcome, if it has one.
abbrev Ends {ℓ κ} : {E A : Type ℓ} → (A → Type κ) → Outcome E A → Type κ
Ends P (ok a) = P a
Ends P (err e) = Unit
Ends P panic = Unit

bind_assoc {ℓ} :
    {E A B C : Type ℓ} (m : Outcome E A) (f : A → Outcome E B) (g : B → Outcome E C)
    → ((m >>= f) >>= g) ≡ (m >>= λ x. f x >>= g)
bind_assoc (ok m) f g = refl
bind_assoc (err e) f g = refl
bind_assoc panic f g = refl

module _ (b : Badger) (keys : ShardKeys) (view : Contents b) where
  open view use {Rows, rows, contents, size}

  -- The open transaction holds no more entities than are counted, and another one fits in.
  abbrev Fits : Progress b keys → Type 0
  Fits p = (size p.txn ≤ p.pending) × (p.pending < restore_txn_chunk)

  -- An outcome comes to the given rows or error, and a further entity fits in.
  abbrev Reaches : Outcome (b.Db × Error) (Progress b keys) → Outcome Error Rows → Type 0
  Reaches m r = (outcome_rows b keys view m ≡ r) × Ends Fits m

  Reaches-bind :
      (m : Outcome (b.Db × Error) (Progress b keys))
      (f : Progress b keys → Outcome (b.Db × Error) (Progress b keys))
      → (r : Outcome Error Rows) (g : Rows → Outcome Error Rows) → Reaches m r
      → ((p : Progress b keys) → Fits p → Reaches (f p) (g (contents p.txn)))
      → Reaches (m >>= f) (r >>= g)
  Reaches-bind (ok p) f r g (same, fits) next =
      let (same', fits') = next p fits in (same' ∙ ap (λ o. o >>= g) same, fits')
  Reaches-bind (err (db, e)) f r g (same, fits) next = (ap (λ o. o >>= g) same, tt)
  Reaches-bind panic f r g (same, fits) next = (ap (λ o. o >>= g) same, tt)

  Reaches-commit_chunk :
      (p : Progress b keys)
      → size p.txn ≤ restore_txn_chunk
      → Reaches (commit_chunk b keys p) (ok (contents p.txn))
  unfolding commit_chunk
  Reaches-commit_chunk p h =
      let (db', done, same) = view.commits p.db p.txn h in
      let none_held = view.size-update db' in
      rw done (ap ok (view.contents-update db' ∙ same), (omega arith, omega arith))

  Reaches-count_kept :
      (p : Progress b keys) (t : b.Txn) (kept : Bool)
      → Fits p
      → size t ≤ size p.txn + (if kept then 1 else 0)
      → Reaches (count_kept b keys p t kept) (ok (contents t))
  unfolding count_kept
  Reaches-count_kept p t false (held, room) grown = (refl, (omega arith, omega arith))
  Reaches-count_kept p t true (held, room) grown =
      let p' : Progress b keys = record p { txn = t; pending = p.pending + 1 } in
      elim (Bool-cases (leb restore_txn_chunk p'.pending)) [
        | inl full ↦ rw full (Reaches-commit_chunk p' (omega arith))
        | inr free ↦ rw free (refl, (omega arith, ground arith))
      ]

  module _ (ins : Inserts b keys view) (sections : List (Section b keys)) (bounds : ShardRange keys)
      (follows : (n : Bytes) (p : PortableTable b keys)
        → by_name b keys sections n ≡ some p
        → Follows b keys view ins p) where
    Reaches-restored :
        (name : Bytes) (p : Progress b keys) (m : Outcome Store.Error (b.Txn × Bool))
        → Fits p
        → ((t : b.Txn) (kept : Bool)
            → m ≡ ok (t, kept)
            → size t ≤ size p.txn + (if kept then 1 else 0))
        → Reaches
            (with_db p.db (restoring name) m >>= λ r. count_kept b keys p r.0 r.1)
            (inserted b keys view ins sections bounds name (rows_of b keys view m))
    Reaches-restored name p (ok (t, kept)) fits grown =
        Reaches-count_kept p t kept fits (grown t kept refl)
    Reaches-restored name p (err e) fits grown = (refl, tt)
    Reaches-restored name p panic fits grown = (refl, tt)

    Reaches-restore_row :
        (name k v : Bytes) (p : Progress b keys)
        → Fits p
        → Reaches (restore_row b keys sections bounds name k v p) (
            replay_one b keys view ins sections bounds
              (record { name = name; key = k; entity = v })
              (contents p.txn))
    unfolding restore_row
    Reaches-restore_row name k v p fits = elim (Option-cases (by_name b keys sections name)) [
      | inl unknown ↦ rw (unknown, restore_row, replay_one) (refl, tt)
      | inr (tbl, known) ↦
          let f = follows name tbl known in
          rw (known, restore_row, replay_one, ← f.restores p.txn k v bounds)
            (Reaches-restored name p (tbl.restore_entity p.txn k v bounds) fits
              (λ t kept done. f.grows p.txn t k v bounds kept done))
    ]

    Reaches-restore_frames :
        (name : Bytes) (s : Stream) (p : Progress b keys)
        → Fits p
        → Reaches (restore_frames b keys sections bounds name s p) (
            replay b keys view ins sections bounds (entities name s) (contents p.txn)
            >>= at_end b keys view ins sections bounds (ending s))
    unfolding restore_frames
    Reaches-restore_frames name eof p fits = (refl, fits)
    Reaches-restore_frames name (broken e) p fits = (refl, tt)
    Reaches-restore_frames name (frame (meta k v) s) p fits = Reaches-restore_frames name s p fits
    Reaches-restore_frames name (frame (table n) s) p fits = Reaches-restore_frames n s p fits
    Reaches-restore_frames name (frame other_kind s) p fits = Reaches-restore_frames name s p fits
    Reaches-restore_frames name (frame (row k v) s) p fits =
        rw
          (bind_assoc
            (replay_one b keys view ins sections bounds
              (record { name = name; key = k; entity = v }) (contents p.txn))
            (replay b keys view ins sections bounds (entities name s))
            (at_end b keys view ins sections bounds (ending s)))
          (Reaches-bind (restore_row b keys sections bounds name k v p)
            (restore_frames b keys sections bounds name s) _
            (λ m.
              replay b keys view ins sections bounds (entities name s) m
              >>= at_end b keys view ins sections bounds (ending s))
            (Reaches-restore_row name k v p fits) (Reaches-restore_frames name s))

    Reaches-restore_readers :
        (ss : List Stream) (p : Progress b keys)
        → Fits p
        → Reaches
            (restore_readers b keys sections bounds ss p)
            (replay_readers b keys view ins sections bounds ss (contents p.txn))
    unfolding restore_readers
    Reaches-restore_readers [] p fits = (refl, fits)
    Reaches-restore_readers (s ∷ ss) p fits =
        rw
          (← bind_assoc (replay b keys view ins sections bounds (entities [] s) (contents p.txn))
            (at_end b keys view ins sections bounds (ending s))
            (replay_readers b keys view ins sections bounds ss))
          (Reaches-bind (restore_frames b keys sections bounds [] s p)
            (restore_readers b keys sections bounds ss) _
            (replay_readers b keys view ins sections bounds ss) (Reaches-restore_frames [] s p fits)
            (Reaches-restore_readers ss))

    final_commit :
        (m : Outcome (b.Db × Error) (Progress b keys))
        → Ends Fits m
        → final_rows b keys view (
            m >>= λ p.
            with_db p.db failed (b.commit p.db p.txn) >>= λ db2. with_db db2 failed (b.flatten db2))
          ≡ outcome_rows b keys view m
    final_commit (err (db, e)) fits = refl
    final_commit panic fits = refl
    final_commit (ok p) (held, room) =
        let (db2, done, same) = view.commits p.db p.txn (omega arith) in
        let (db3, done', same') = view.flattens db2 in rw (done, done') (ap ok (same' ∙ same))

    -- Where a commit of at most 512 entities and `Flatten` succeed, the tables' inserts see only the rows,
    -- and the clearing succeeds: `RestoreSnapshot` does to the rows that it leaves what inserting the
    -- entities of the readers one by one does, with the same error where it fails.
    pub restore_snapshot-replay :
        (db db1 : b.Db) (readers : List Stream)
        → clear_all b keys sections db ≡ ok db1
        → final_rows b keys view (restore_snapshot b keys sections bounds db readers)
          ≡ replay_readers b keys view ins sections bounds readers (rows db1)
    unfolding restore_snapshot
    restore_snapshot-replay db db1 readers cleared =
        let start : Progress b keys = record { db = db1; txn = b.update db1; pending = 0 } in
        let none_held = view.size-update db1 in
        let (same, fits) = Reaches-restore_readers readers start (omega arith, omega arith) in
        rw cleared (
          final_commit (restore_readers b keys sections bounds readers start) fits
          ∙ same
          ∙ ap (replay_readers b keys view ins sections bounds readers) (view.contents-update db1))
