-- ===== src/Honey/Portable/Split/Runs.antt =====
-- The store of two cells, split behind the key 0 into two shards.
use yellowstone_common.Common.{
  ℕ, zero, suc, leb, ◌≡◌, refl, arith, ◌&&◌, ◌++◌, some, List, [], ◌∷◌, Bytes, All,
}
use mathlib.Core.List.{Perm}
use yellowstone_common.Common.Outcome.{Outcome, ok, err}
use yellowstone_common.Honey.Store
use yellowstone_common.Honey.Portable.{
  ShardRange, Frame, Stream, clear_all, by_name, owns, restore_snapshot,
}
use yellowstone_common.Honey.Portable.Replay.{Entity, entities, final_rows}
use yellowstone_common.Honey.Portable.Streams.{of_frames}
use yellowstone_common.Honey.Portable.Cells.{
  Cells, no_cells, keys, badger, put, users, sections, contents, inserts, all-Follow,
}
use yellowstone_common.Honey.Portable.Split.{
  Adjacent, Keeping, Keeps, kept_if, owned, put_all, restore_snapshot_split,
}

abbrev lower : ShardRange keys
lower = record { lower = 0; upper = 0 }

abbrev upper : ShardRange keys
upper = record { lower = 1; upper = 9 }

abbrev whole : ShardRange keys
whole = record { lower = 0; upper = 9 }

halves_Adjacent : Adjacent keys lower upper whole
halves_Adjacent = record {
  starts = refl;
  ends = refl;
  next = λ k. ground arith;
  below = λ k h. ground (arith, h);
  above = λ k h. ground (arith, h);
}

abbrev first_byte : Bytes → ℕ
first_byte [] = 0
first_byte (n ∷ k) = n

abbrev put_cell : Cells → Bytes → Bytes → Outcome Store.Error Cells
put_cell c [] v = err (Store.other 1)
put_cell c (zero ∷ k) v = ok (record c { left = some v })
put_cell c (suc n ∷ k) v = ok (record c { right = some v })

abbrev keeping : Keeping badger keys contents
keeping = record { shard_key = λ p k v. first_byte k; put = λ p c k v. put_cell c k v }

put-kept_if :
    (c : Cells) (n : ℕ) (k v : Bytes) (r : ShardRange keys)
    → put c (n ∷ k) v r
      ≡ kept_if badger keys contents (leb r.lower n && leb n r.upper) (put_cell c (n ∷ k) v) c
put-kept_if c zero k v r = ground arith
put-kept_if c (suc n) k v r = ground arith

abbrev snapshot : Stream
snapshot =
    of_frames
      (Frame.table (7 ∷ []) ∷ Frame.row (0 ∷ []) (5 ∷ []) ∷ Frame.row (1 ∷ []) (6 ∷ []) ∷ [])

snapshot-Keeps : All (Keeps badger keys contents inserts keeping sections) (entities [] snapshot)
unfolding by_name owns
snapshot-Keeps = (
  record { tbl = users; known = refl; keeps = λ m r. put-kept_if m 0 [] (5 ∷ []) r },
  (record { tbl = users; known = refl; keeps = λ m r. put-kept_if m 1 [] (6 ∷ []) r }, tt),
)

cleared : clear_all badger keys sections no_cells ≡ ok no_cells
unfolding clear_all
cleared = refl

abbrev listed : List Entity
listed = entities [] snapshot

restore_snapshot_split_example :
    ((r : ShardRange keys)
      → final_rows badger keys contents
          (restore_snapshot badger keys sections r no_cells (snapshot ∷ []))
        ≡ put_all badger keys contents inserts keeping sections
            (owned badger keys contents inserts keeping sections r listed)
            no_cells)
    × Perm
        (owned badger keys contents inserts keeping sections lower listed
          ++ owned badger keys contents inserts keeping sections upper listed)
        (owned badger keys contents inserts keeping sections whole listed)
restore_snapshot_split_example =
    restore_snapshot_split badger keys contents inserts keeping sections all-Follow lower upper
      whole no_cells no_cells snapshot halves_Adjacent cleared refl snapshot-Keeps
