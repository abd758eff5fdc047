-- ===== src/Honey/Portable/Merge.antt =====
-- honey/portable.go: the order of the readers, which a comment of `RestoreSnapshot` calls irrelevant.
use yellowstone_common.Common.{
  ◌≡◌, refl, sym, ap, ◌∙◌, Option, none, some, List, [], ◌∷◌, Bytes, All,
}
use yellowstone_common.Common.Outcome.{ok, ◌>>=◌, >>=-eq-ok}
use yellowstone_common.Honey.Store
use yellowstone_common.Honey.Portable.{
  Badger, ShardKeys, ShardRange, PortableTable, Section, Stream, clear_all, by_name,
  restore_snapshot,
}
use yellowstone_common.Honey.Portable.Replay.{
  Contents, Entity, entities, ending, Inserts, Follows, final_rows, replay_one, replay, at_end,
  replay_readers,
}
use yellowstone_common.Honey.Portable.Chunks.{restore_snapshot-replay}

module _ (b : Badger) (keys : ShardKeys) (view : Contents b) (ins : Inserts b keys view)
    (sections : List (Section b keys)) (bounds : ShardRange keys) where
  open view use {Rows}

  -- Inserting the two in either order succeeds alike and comes to the same rows.
  abbrev pub Commutes : Entity → Entity → Type 0
  Commutes x y =
      (m m1 m2 : Rows)
      → replay_one b keys view ins sections bounds x m ≡ ok m1
      → replay_one b keys view ins sections bounds y m1 ≡ ok m2
      → (m' : Rows) × (replay_one b keys view ins sections bounds y m ≡ ok m')
        × (replay_one b keys view ins sections bounds x m' ≡ ok m2)

  cons_replay :
      (e : Entity) (es : List Entity) (m m1 m2 : Rows)
      → replay_one b keys view ins sections bounds e m ≡ ok m1
      → replay b keys view ins sections bounds es m1 ≡ ok m2
      → replay b keys view ins sections bounds (e ∷ es) m ≡ ok m2
  cons_replay e es m m1 m2 h h' = ap (λ o. o >>= replay b keys view ins sections bounds es) h ∙ h'

  one_past :
      (x : Entity) (ys : List Entity) (m m1 m2 : Rows)
      → All (Commutes x) ys
      → replay_one b keys view ins sections bounds x m ≡ ok m1
      → replay b keys view ins sections bounds ys m1 ≡ ok m2
      → (m' : Rows) × (replay b keys view ins sections bounds ys m ≡ ok m')
        × (replay_one b keys view ins sections bounds x m' ≡ ok m2)
  one_past x [] m m1 m2 h first rest = (m, refl, first ∙ rest)
  one_past x (y ∷ ys) m m1 m2 (here, h) first rest =
      let (k, e1, e2) =
        >>=-eq-ok (replay_one b keys view ins sections bounds y m1) _ {b = m2} rest in
      let (n, f1, f2) = here m m1 k first e1 in
      let (m', g1, g2) = one_past x ys n k m2 h f2 e2 in (m', cons_replay y ys m n m' f1 g1, g2)

  All-past :
      (xs ys : List Entity) (m m1 m2 : Rows)
      → All (λ x. All (Commutes x) ys) xs
      → replay b keys view ins sections bounds xs m ≡ ok m1
      → replay b keys view ins sections bounds ys m1 ≡ ok m2
      → (m' : Rows) × (replay b keys view ins sections bounds ys m ≡ ok m')
        × (replay b keys view ins sections bounds xs m' ≡ ok m2)
  All-past [] ys m m1 m2 h first rest =
      let same : m ≡ m1 = cc first in
      (m2, ap (replay b keys view ins sections bounds ys) same ∙ rest, refl)
  All-past (x ∷ xs) ys m m1 m2 (here, h) first rest =
      let (k, e1, e2) =
        >>=-eq-ok (replay_one b keys view ins sections bounds x m) _ {b = m1} first in
      let (n, f1, f2) = All-past xs ys k m1 m2 h e2 rest in
      let (m', g1, g2) = one_past x ys m k n here e1 f1 in (m', g1, cons_replay x xs m' n m2 g2 f2)

  ended :
      (e : Option Store.Error) (m m' : Rows)
      → at_end b keys view ins sections bounds e m ≡ ok m'
      → (e ≡ none) × (m ≡ m')
  ended none m m' h = (refl, cc h)
  ended (some x) m m' h = cc

  -- A reader that is restored ends well, and so do those behind it.
  first_reader :
      (s : Stream) (ss : List Stream) (m m2 : Rows)
      → replay_readers b keys view ins sections bounds (s ∷ ss) m ≡ ok m2
      → (m1 : Rows) × (replay b keys view ins sections bounds (entities [] s) m ≡ ok m1)
        × (ending s ≡ none)
        × (replay_readers b keys view ins sections bounds ss m1 ≡ ok m2)
  first_reader s ss m m2 h =
      let (m1, e1, h1) =
        >>=-eq-ok (replay b keys view ins sections bounds (entities [] s) m) _ {b = m2} h in
      let (m1', e2, h2) =
        >>=-eq-ok (at_end b keys view ins sections bounds (ending s) m1) _ {b = m2} h1 in
      let (whole, same) = ended (ending s) m1 m1' e2 in
      (m1, e1, whole, ap (replay_readers b keys view ins sections bounds ss) same ∙ h2)

  reader_replayed :
      (s : Stream) (ss : List Stream) (m m1 : Rows)
      → replay b keys view ins sections bounds (entities [] s) m ≡ ok m1
      → ending s ≡ none
      → replay_readers b keys view ins sections bounds (s ∷ ss) m
        ≡ replay_readers b keys view ins sections bounds ss m1
  reader_replayed s ss m m1 done whole = rw (done, whole) refl

  module _
      (follows : (n : Bytes) (p : PortableTable b keys)
        → by_name b keys sections n ≡ some p
        → Follows b keys view ins p) where
    -- Where a commit of at most 512 entities and `Flatten` succeed, the tables' inserts see only the rows, the
    -- clearing succeeds, and inserting an entity of the one reader and an entity of the other commutes: a restore
    -- from the two that succeeds also succeeds with the readers in the other order, and comes to the same rows.
    pub restore_snapshot_swap :
        (db db1 : b.Db) (one other : Stream) (m : Rows)
        → clear_all b keys sections db ≡ ok db1
        → All (λ x. All (Commutes x) (entities [] other)) (entities [] one)
        → final_rows b keys view (restore_snapshot b keys sections bounds db (one ∷ other ∷ []))
          ≡ ok m
        → final_rows b keys view (restore_snapshot b keys sections bounds db (other ∷ one ∷ []))
          ≡ ok m
    restore_snapshot_swap db db1 one other m cleared apart done =
        let replayed = restore_snapshot-replay b keys view ins sections bounds follows db db1 in
        let (m1, e1, w1, h1) =
          first_reader one (other ∷ []) (view.rows db1) m
            (sym (replayed (one ∷ other ∷ []) cleared) ∙ done) in
        let (m2, e2, w2, h2) = first_reader other [] m1 m h1 in
        let (m', f1, f2) =
          All-past (entities [] one) (entities [] other) (view.rows db1) m1 m2 apart e1 e2 in
        replayed (other ∷ one ∷ []) cleared
        ∙ reader_replayed other (one ∷ []) (view.rows db1) m' f1 w2
        ∙ reader_replayed one [] m' m2 f2 w1
        ∙ h2
