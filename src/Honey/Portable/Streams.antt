-- ===== src/Honey/Portable/Streams.antt =====
-- honey/portable.go: what `WriteSnapshot` writes, and restoring it.
use yellowstone_common.Common.{
  ◌≡◌, refl, sym, ap, ◌∙◌, Bool, true, none, some, List, [], ◌∷◌, ◌++◌, Bytes, map, All,
}
use mathlib.Core.List.{append-nil, append_assoc}
use yellowstone_common.Common.Text.{codes}
use yellowstone_common.Common.Outcome.{Outcome, ok, err, panic, ◌>>=◌, >>=-eq-ok}
use yellowstone_common.Honey.Store
use yellowstone_common.Honey.Store.{Row, visit, go_on}
use yellowstone_common.Honey.Portable.{
  Badger, ShardKeys, ShardRange, PortableTable, Section, Frame, Stream, eof, frame, meta, table,
  row, Fenestra, Error, write_row, write_sections, write_snapshot, clear_all, by_name,
  restore_snapshot,
}
use yellowstone_common.Honey.Portable.Replay.{
  Contents, Entity, entities, ending, Inserts, Follows, final_rows, replay, at_end, replay_readers,
}
use yellowstone_common.Honey.Portable.Chunks.{restore_snapshot-replay}

abbrev pub of_frames : List Frame → Stream
of_frames [] = eof
of_frames (f ∷ fs) = frame f (of_frames fs)

-- Each call of the writer adds its frame, and what is closed is read back as those frames.
pub record Reads (fw : Fenestra) : Type 0 where
  pub written : fw.Writer → List Frame
  pub written-new : written fw.new ≡ []
  pub written-meta :
      (w w' : fw.Writer) (k v : Bytes)
      → fw.meta w k v ≡ ok w'
      → written w' ≡ written w ++ (meta k v ∷ [])
  pub written-table :
      (w w' : fw.Writer) (n : Bytes) (more : Bool)
      → fw.table w n more ≡ ok w'
      → written w' ≡ written w ++ (table n ∷ [])
  pub written-row :
      (w w' : fw.Writer) (k v : Bytes)
      → fw.row w k v ≡ ok w'
      → written w' ≡ written w ++ (row k v ∷ [])
  pub closed : (w : fw.Writer) (s : Stream) → fw.close w ≡ ok s → s ≡ of_frames (written w)

module _ (b : Badger) (keys : ShardKeys) (listed : PortableTable b keys → b.Txn → List Row) where
  -- `EachEntity` visits the entities that a transaction sees.
  abbrev pub Lists : PortableTable b keys → Type 1
  Lists p =
      (S : Type 0) (t : b.Txn) (f : Store.Visit S) (s : S)
      → p.each_entity S t f s ≡ visit f (listed p t) s

  -- The entities of the sections, in order.
  abbrev pub section_entities : b.Txn → List (Section b keys) → List Entity
  section_entities t [] = []
  section_entities t (sec ∷ sections) =
      map (λ (r : Row). record { name = sec.name; key = r.0; entity = r.1 }) (listed sec.table t)
      ++ section_entities t sections

  abbrev section_frames : b.Txn → List (Section b keys) → List Frame
  section_frames t [] = []
  section_frames t (sec ∷ sections) =
      table sec.name
      ∷ (map (λ (r : Row). row r.0 r.1) (listed sec.table t) ++ section_frames t sections)

  -- Reading back the rows of one section, and then what follows.
  entities-rows :
      (name : Bytes) (rows : List Row) (fs : List Frame)
      → entities name (of_frames (map (λ (r : Row). row r.0 r.1) rows ++ fs))
        ≡ map (λ (r : Row). record { name = name; key = r.0; entity = r.1 }) rows
          ++ entities name (of_frames fs)
  entities-rows name [] fs = refl
  entities-rows name ((k, v) ∷ rows) fs =
      ap (◌∷◌ (record { name = name; key = k; entity = v })) (entities-rows name rows fs)

  entities-section_frames :
      (name : Bytes) (t : b.Txn) (sections : List (Section b keys))
      → entities name (of_frames (section_frames t sections)) ≡ section_entities t sections
  entities-section_frames name t [] = refl
  entities-section_frames name t (sec ∷ sections) =
      entities-rows sec.name (listed sec.table t) (section_frames t sections)
      ∙ ap
          (λ es.
            map (λ (r : Row). record { name = sec.name; key = r.0; entity = r.1 })
              (listed sec.table t)
            ++ es)
          (entities-section_frames sec.name t sections)

  ending-of_frames : (fs : List Frame) → ending (of_frames fs) ≡ none
  ending-of_frames [] = refl
  ending-of_frames (f ∷ fs) = ending-of_frames fs

  module _ (fw : Fenestra) (reads : Reads fw) where
    open reads use {written}

    one_row :
        (m : Outcome Store.Error fw.Writer) (rest : fw.Writer → Outcome Store.Error fw.Writer)
        (w' : fw.Writer)
        → ((m >>= λ w. Outcome.ok (true, w)) >>= go_on rest) ≡ ok w'
        → (u : fw.Writer) × (m ≡ ok u) × (rest u ≡ ok w')
    one_row (ok u) rest w' h = (u, refl, h)
    one_row (err e) rest w' h = cc
    one_row panic rest w' h = cc

    written-rows :
        (rows : List Row) (w w' : fw.Writer)
        → visit (write_row b keys fw) rows w ≡ ok w'
        → written w' ≡ written w ++ map (λ (r : Row). row r.0 r.1) rows
    unfolding visit write_row
    written-rows [] w w' h =
        let same : w ≡ w' = cc h in ap written (sym same) ∙ sym (append-nil (written w))
    written-rows ((k, v) ∷ rows) w w' h =
        let (u, e, h') = one_row (fw.row w k v) (visit (write_row b keys fw) rows) w' h in
        written-rows rows u w' h'
        ∙ ap (λ fs. fs ++ map (λ (r : Row). row r.0 r.1) rows) (reads.written-row w u k v e)
        ∙ append_assoc (written w) (row k v ∷ []) (map (λ (r : Row). row r.0 r.1) rows)

    written-sections :
        (t : b.Txn) (sections : List (Section b keys)) (w w' : fw.Writer)
        → All (λ sec. Lists sec.table) sections
        → write_sections b keys fw t sections w ≡ ok w'
        → written w' ≡ written w ++ section_frames t sections
    unfolding write_sections
    written-sections t [] w w' lists h =
        let same : w ≡ w' = cc h in ap written (sym same) ∙ sym (append-nil (written w))
    written-sections t (sec ∷ sections) w w' (here, lists) h =
        let (u, e1, h1) = >>=-eq-ok (fw.table w sec.name true) _ {b = w'} h in
        let (v, e2, h2) =
          >>=-eq-ok (sec.table.each_entity fw.Writer t (write_row b keys fw) u) _ {b = w'} h1 in
        written-sections t sections v w' lists h2
        ∙ ap (λ fs. fs ++ section_frames t sections)
            (written-rows (listed sec.table t) u v
                (sym (here fw.Writer t (write_row b keys fw) u) ∙ e2)
              ∙ ap (λ fs. fs ++ map (λ (r : Row). row r.0 r.1) (listed sec.table t))
                  (reads.written-table w u sec.name true e1))
        ∙ append_assoc (written w ++ (table sec.name ∷ []))
            (map (λ (r : Row). row r.0 r.1) (listed sec.table t)) (section_frames t sections)
        ∙ append_assoc (written w) (table sec.name ∷ [])
            (map (λ (r : Row). row r.0 r.1) (listed sec.table t) ++ section_frames t sections)

    -- What `WriteSnapshot` writes is read back as the entities of the sections, in order, with no error.
    entities-write_snapshot :
        (t : b.Txn) (core_name : Bytes) (sections : List (Section b keys)) (s : Stream)
        → All (λ sec. Lists sec.table) sections
        → write_snapshot b keys fw t core_name sections ≡ ok s
        → (entities [] s ≡ section_entities t sections) × (ending s ≡ none)
    unfolding write_snapshot
    entities-write_snapshot t core_name sections s lists h =
        let (u, e1, h1) = >>=-eq-ok (fw.meta fw.new (codes "core") core_name) _ {b = s} h in
        let (v, e2, h2) = >>=-eq-ok (write_sections b keys fw t sections u) _ {b = s} h1 in
        let all_written : written v ≡ meta (codes "core") core_name ∷ section_frames t sections =
          written-sections t sections u v lists e2
          ∙ ap (λ fs. fs ++ section_frames t sections)
              (reads.written-meta fw.new u (codes "core") core_name e1
                ∙ ap (λ fs. fs ++ meta (codes "core") core_name ∷ []) reads.written-new) in
        let same : s ≡ of_frames (meta (codes "core") core_name ∷ section_frames t sections) =
          reads.closed v s h2 ∙ ap of_frames all_written in
        (
          ap (entities []) same ∙ entities-section_frames [] t sections,
          ap ending same
              ∙ ending-of_frames (meta (codes "core") core_name ∷ section_frames t sections),
        )

module _ (b : Badger) (keys : ShardKeys) (view : Contents b) (ins : Inserts b keys view)
    (fw : Fenestra) (reads : Reads fw) (listed : PortableTable b keys → b.Txn → List Row)
    (sections : List (Section b keys)) (bounds : ShardRange keys)
    (follows : (n : Bytes) (p : PortableTable b keys)
      → by_name b keys sections n ≡ some p
      → Follows b keys view ins p)
    (lists : All (λ sec. Lists b keys listed sec.table) sections) where
  at_end-none :
      (m : Outcome Error view.Rows)
      → (m >>= λ x. at_end b keys view ins sections bounds none x >>= λ y. Outcome.ok y) ≡ m
  at_end-none (ok m) = refl
  at_end-none (err e) = refl
  at_end-none panic = refl

  replay_whole :
      (s : Stream) (es : List Entity) (m : view.Rows)
      → entities [] s ≡ es
      → ending s ≡ none
      → replay_readers b keys view ins sections bounds (s ∷ []) m
        ≡ replay b keys view ins sections bounds es m
  replay_whole s es m same whole =
      rw (whole, same) (at_end-none (replay b keys view ins sections bounds es m))

  -- Where a commit of at most 512 entities and `Flatten` succeed, the tables' inserts see only the rows, and the
  -- clearing succeeds: what `WriteSnapshot` writes of a transaction, `RestoreSnapshot` with the same sections
  -- reads back. To the rows that clearing leaves it does what inserting the transaction's entities does, section
  -- by section and in order, each into the last section of its name, with the same error where one is refused.
  pub restore_snapshot-write_snapshot :
      (t : b.Txn) (core_name : Bytes) (s : Stream) (db db1 : b.Db)
      → write_snapshot b keys fw t core_name sections ≡ ok s
      → clear_all b keys sections db ≡ ok db1
      → final_rows b keys view (restore_snapshot b keys sections bounds db (s ∷ []))
        ≡ replay b keys view ins sections bounds
            (section_entities b keys listed t sections)
            (view.rows db1)
  restore_snapshot-write_snapshot t core_name s db db1 wrote cleared =
      let (same, whole) =
        entities-write_snapshot b keys listed fw reads t core_name sections s lists wrote in
      restore_snapshot-replay b keys view ins sections bounds follows db db1 (s ∷ []) cleared
      ∙ replay_whole s (section_entities b keys listed t sections) (view.rows db1) same whole
