-- ===== src/Honey/Portable/Cells.antt =====
-- A store of two cells, as the store and a table of a core. The shard key of an entity is the first byte of
-- its key, which also says in which cell it goes.
use yellowstone_common.Common.{
  ℕ, zero, suc, ◌+◌, ◌≤◌, leb, if◌then◌else◌, ◌≡◌, refl, subst, arith, Bool, true, false, ◌&&◌,
  Option, none, some, List, [], ◌∷◌, ◌++◌, Bytes,
}
use yellowstone_common.Common.Compare.{equal}
use yellowstone_common.Common.Outcome.{Outcome, ok, err, panic}
use yellowstone_common.Honey.Store
use yellowstone_common.Honey.Store.{Row, visit, go_on}
use yellowstone_common.Honey.Portable.{
  Badger, ShardKeys, ShardRange, PortableTable, Section, by_name,
}
use yellowstone_common.Honey.Portable.Replay.{Contents, Inserts, Follows, rows_of}

pub record Cells : Type 0 where
  pub left : Option Bytes
  pub right : Option Bytes

abbrev pub no_cells : Cells
no_cells = record { left = none; right = none }

abbrev pub keys : ShardKeys
keys = record { ShardKey = ℕ; le = leb }

-- The transaction counts its entities, and a commit of more than 512 fails.
abbrev pub badger : Badger
badger = record {
  Db = Cells;
  Txn = Cells × ℕ;
  view = λ db. (db, 0);
  update = λ db. (db, 0);
  commit = λ db t. if leb t.1 512 then ok t.0 else err (Store.other 2);
  flatten = λ db. ok db;
}

abbrev pub put : Cells → Bytes → Bytes → ShardRange keys → Outcome Store.Error (Cells × Bool)
put c [] v r = err (Store.other 1)
put c (zero ∷ k) v r =
    if leb r.lower 0 && leb 0 r.upper then ok (record c { left = some v }, true) else ok (c, false)
put c (suc n ∷ k) v r =
    if leb r.lower (suc n) && leb (suc n) r.upper
    then ok (record c { right = some v }, true)
    else ok (c, false)

abbrev pub counted :
    ℕ → Outcome Store.Error (Cells × Bool) → Outcome Store.Error ((Cells × ℕ) × Bool)
counted n (ok (c, kept)) = ok ((c, n + (if kept then 1 else 0)), kept)
counted n (err e) = err e
counted n panic = panic

abbrev pub cell_row : ℕ → Option Bytes → List Row
cell_row n none = []
cell_row n (some v) = (n ∷ [], v) ∷ []

abbrev pub listed_rows : Cells → List Row
listed_rows c = cell_row 0 c.left ++ cell_row 1 c.right

abbrev pub users : PortableTable badger keys
users = record {
  each_entity = λ S t f s. visit f (listed_rows t.0) s;
  restore_entity = λ t k v r. counted t.1 (put t.0 k v r);
  clear = λ db. ok no_cells;
}

abbrev pub sections : List (Section badger keys)
sections = record { name = 7 ∷ []; table = users } ∷ []

-- The shard of the keys from 0 to 9.
abbrev pub bounds : ShardRange keys
bounds = record { lower = 0; upper = 9 }

pub commit_fits :
    (c : Cells) (n : ℕ) → n ≤ 512 → (if leb n 512 then Outcome.ok c else err (Store.other 2)) ≡ ok c
commit_fits c n h = ground arith

abbrev pub contents : Contents badger
contents = record {
  Rows = Cells;
  rows = λ db. db;
  contents = λ t. t.0;
  contents-update = λ db. refl;
  size = λ t. t.1;
  size-update = λ db. refl;
  commits = λ db t h. (t.0, commit_fits t.0 t.1 h, refl);
  flattens = λ db. (db, refl, refl);
}

abbrev pub inserts : Inserts badger keys contents
inserts = record { insert = λ p m k v r. put m k v r }

counted_rows :
    (n : ℕ) (m : Outcome Store.Error (Cells × Bool))
    → rows_of badger keys contents (counted n m) ≡ m
counted_rows n (ok (c, kept)) = refl
counted_rows n (err e) = refl
counted_rows n panic = refl

counted_size :
    (n : ℕ) (m : Outcome Store.Error (Cells × Bool)) (t : Cells × ℕ) (kept : Bool)
    → counted n m ≡ ok (t, kept)
    → t.1 ≤ n + (if kept then 1 else 0)
counted_size n (ok (c, k)) t kept h =
    let same : Path ((Cells × ℕ) × Bool) ((c, n + (if k then 1 else 0)), k) (t, kept) = cc h in
    subst (λ (q : (Cells × ℕ) × Bool). q.0.1 ≤ n + (if q.1 then 1 else 0)) same (omega arith)
counted_size n (err e) t kept h = cc
counted_size n panic t kept h = cc

pub users-Follows : Follows badger keys contents inserts users
users-Follows = record {
  restores = λ t k v r. counted_rows t.1 (put t.0 k v r);
  grows = λ t t' k v r kept h. counted_size t.1 (put t.0 k v r) t' kept h;
}

found-Follows :
    (p : PortableTable badger keys) (found : Bool)
    → (if found then some users else none) ≡ some p
    → Follows badger keys contents inserts p
found-Follows p true h =
    let same : users ≡ p = cc h in subst (Follows badger keys contents inserts) same users-Follows
found-Follows p false h = cc

pub all-Follow :
    (n : Bytes) (p : PortableTable badger keys)
    → by_name badger keys sections n ≡ some p
    → Follows badger keys contents inserts p
unfolding by_name
all-Follow n p h = found-Follows p (equal n (7 ∷ [])) h
