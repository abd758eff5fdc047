-- ===== src/Honey/Portable/Runs.antt =====
-- Snapshots of the store of two cells, and the theorems at concrete inputs.
use yellowstone_common.Common.{ℕ, ◌≡◌, refl, sym, ap, ◌∙◌, none, some, List, [], ◌∷◌, ◌++◌, All}
use yellowstone_common.Common.Text.{codes}
use yellowstone_common.Common.Outcome.{Outcome, ok}
use yellowstone_common.Honey.Store
use yellowstone_common.Honey.Store.{Row, visit, go_on}
use yellowstone_common.Honey.Portable.{
  PortableTable, Frame, Stream, Fenestra, Error, write_snapshot, write_row, clear_all, by_name,
  restore_snapshot, restore_readers, restore_frames, restore_row,
}
use yellowstone_common.Honey.Portable.Replay.{entities, final_rows, replay, replay_readers}
use yellowstone_common.Honey.Portable.Chunks.{restore_snapshot-replay}
use yellowstone_common.Honey.Portable.Streams.{
  of_frames, Reads, Lists, section_entities, restore_snapshot-write_snapshot,
}
use yellowstone_common.Honey.Portable.Merge.{Commutes, restore_snapshot_swap}
use yellowstone_common.Honey.Portable.Cells.{
  Cells, all-Follow, badger, bounds, contents, inserts, keys, listed_rows, no_cells, sections,
}

-- A writer that keeps its frames.
abbrev fenestra : Fenestra
fenestra = record {
  Writer = List Frame;
  new = [];
  meta = λ w k v. ok (w ++ (Frame.meta k v ∷ []));
  table = λ w n more. ok (w ++ (Frame.table n ∷ []));
  row = λ w k v. ok (w ++ (Frame.row k v ∷ []));
  close = λ w. ok (of_frames w);
}

frames≡ : (a b : List Frame) → Path (Outcome Store.Error (List Frame)) (ok a) (ok b) → b ≡ a
frames≡ a b h = let same : a ≡ b = cc h in sym same

stream≡ : (a b : Stream) → Path (Outcome Store.Error Stream) (ok a) (ok b) → b ≡ a
stream≡ a b h = let same : a ≡ b = cc h in sym same

fenestra-Reads : Reads fenestra
fenestra-Reads = record {
  written = λ w. w;
  written-new = refl;
  written-meta = λ w w' k v h. frames≡ (w ++ (Frame.meta k v ∷ [])) w' h;
  written-table = λ w w' n more h. frames≡ (w ++ (Frame.table n ∷ [])) w' h;
  written-row = λ w w' k v h. frames≡ (w ++ (Frame.row k v ∷ [])) w' h;
  closed = λ w s h. stream≡ (of_frames w) s h;
}

abbrev full : Cells
full = record { left = some (5 ∷ []); right = some (6 ∷ []) }

abbrev snapshot : Stream
snapshot = of_frames (
    Frame.meta (codes "core") (99 ∷ [])
    ∷ Frame.table (7 ∷ [])
    ∷ Frame.row (0 ∷ []) (5 ∷ [])
    ∷ Frame.row (1 ∷ []) (6 ∷ [])
    ∷ [])

wrote : write_snapshot badger keys fenestra (full, 0) (99 ∷ []) sections ≡ ok snapshot
unfolding write_snapshot write_row visit
wrote = refl

cleared : clear_all badger keys sections no_cells ≡ ok no_cells
unfolding clear_all
cleared = refl

restored : restore_snapshot badger keys sections bounds no_cells (snapshot ∷ []) ≡ ok full
unfolding restore_snapshot restore_readers restore_frames restore_row by_name clear_all
restored = refl

restored_part :
    restore_snapshot badger keys sections (record { lower = 1; upper = 9 }) no_cells (snapshot ∷ [])
    ≡ ok (record { left = none; right = some (6 ∷ []) })
unfolding restore_snapshot restore_readers restore_frames restore_row by_name clear_all
restored_part = refl

listed : PortableTable badger keys → Cells × ℕ → List Row
listed p t = listed_rows t.0

All-listed : All (λ sec. Lists badger keys listed sec.table) sections
unfolding listed
All-listed = (λ S t f s. refl, tt)

restore_snapshot-replay_example :
    final_rows badger keys contents
      (restore_snapshot badger keys sections bounds no_cells (snapshot ∷ []))
    ≡ replay_readers badger keys contents inserts sections bounds (snapshot ∷ []) no_cells
restore_snapshot-replay_example =
    restore_snapshot-replay badger keys contents inserts sections bounds all-Follow no_cells
      no_cells (snapshot ∷ []) cleared

restore_snapshot-write_snapshot_example :
    final_rows badger keys contents
      (restore_snapshot badger keys sections bounds no_cells (snapshot ∷ []))
    ≡ replay badger keys contents inserts sections bounds
        (section_entities badger keys listed (full, 0) sections)
        no_cells
restore_snapshot-write_snapshot_example =
    restore_snapshot-write_snapshot badger keys contents inserts fenestra fenestra-Reads listed
      sections bounds all-Follow All-listed (full, 0) (99 ∷ []) snapshot no_cells no_cells wrote
      cleared

-- The two halves of a split.
abbrev one : Stream
one = of_frames (Frame.table (7 ∷ []) ∷ Frame.row (0 ∷ []) (5 ∷ []) ∷ [])

abbrev other : Stream
other = of_frames (Frame.table (7 ∷ []) ∷ Frame.row (1 ∷ []) (6 ∷ []) ∷ [])

merged :
    final_rows badger keys contents
      (restore_snapshot badger keys sections bounds no_cells (one ∷ other ∷ []))
    ≡ ok full
unfolding restore_snapshot restore_readers restore_frames restore_row by_name clear_all
merged = refl

cells_commute :
    (m m1 m2 : Cells)
    → Path (Outcome Error Cells) (ok (record m { left = some (5 ∷ []) })) (ok m1)
    → Path (Outcome Error Cells) (ok (record m1 { right = some (6 ∷ []) })) (ok m2)
    → Path
        (Outcome Error Cells)
        (ok (record { left = some (5 ∷ []); right = some (6 ∷ []) }))
        (ok m2)
cells_commute m m1 m2 h h' =
    let e : record m { left = some (5 ∷ []) } ≡ m1 = cc h in
    ap (λ (c : Cells). ok (record c { right = some (6 ∷ []) })) e ∙ h'

halves_commute :
    All
      (λ x. All (Commutes badger keys contents inserts sections bounds x) (entities [] other))
      (entities [] one)
unfolding by_name
halves_commute = (
  (λ m m1 m2 h h'. (record m { right = some (6 ∷ []) }, refl, cells_commute m m1 m2 h h'), tt),
  tt,
)

restore_snapshot_swap_example :
    final_rows badger keys contents
      (restore_snapshot badger keys sections bounds no_cells (other ∷ one ∷ []))
    ≡ ok full
restore_snapshot_swap_example =
    restore_snapshot_swap badger keys contents inserts sections bounds all-Follow no_cells no_cells
      one other full cleared halves_commute merged
