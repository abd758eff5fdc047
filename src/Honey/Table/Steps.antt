-- ===== src/Honey/Table/Steps.antt =====
-- honey/tables.go: the callbacks of `listPrefixedPaginated` behind a token.
use yellowstone_common.Common.{
  ℕ, zero, suc, ◌+◌, ◌<◌, ◌≡◌, refl, sym, ap, ◌∙◌, arith, Bool, true, false, length, take, drop,
  map, All, List, [], ◌∷◌, ◌++◌, Bytes, length-append,
}
use mathlib.Core.List.{append-nil, append_assoc}
use yellowstone_common.Common.Compare.{equal, equal_self, has_prefix}
use yellowstone_common.Common.Int.{pos}
use yellowstone_common.Common.Outcome.{ok}
use yellowstone_common.Honey.Store.{Row, visit}
use yellowstone_common.Honey.Table.Pages.{
  Raw, empty, collect, collect_in, neighbour, append, with_token,
}

-- The rows of an iteration leave the prefix here.
abbrev pub Leaves : Bytes → List Row → Type 0
Leaves prefix [] = Unit {0}
Leaves prefix (r ∷ rows) = has_prefix r.0 prefix ≡ false

pub Leaves-All :
    (prefix : Bytes) (rows : List Row)
    → All (λ x. has_prefix x.0 prefix ≡ false) rows
    → Leaves prefix rows
Leaves-All prefix [] h = tt
Leaves-All prefix (x ∷ rows) h = h.0

abbrev pub appended : List Row → Raw → Raw
appended rows r = record r {
  values = r.values ++ map (λ x. x.1) rows;
  keys = r.keys ++ map (λ x. x.0) rows;
}

-- The token at the first of the rows, if there is one.
abbrev pub rest_token : Bool → List Row → Raw → Raw
rest_token reverse [] r = r
rest_token reverse (x ∷ rows) r = with_token reverse x.0 r

collect_in_stop :
    (prefix : Bytes) (limit : ℕ) (reverse : Bool) (k v : Bytes) (r : Raw)
    → has_prefix k prefix ≡ false
    → collect_in prefix (pos limit) reverse k v r ≡ ok (false, r)
unfolding collect_in
collect_in_stop prefix limit reverse k v r e = rw e

collect_in_full :
    (prefix : Bytes) (limit : ℕ) (reverse : Bool) (k v : Bytes) (r : Raw)
    → has_prefix k prefix ≡ true
    → length r.values ≡ limit
    → collect_in prefix (pos limit) reverse k v r ≡ ok (false, with_token reverse k r)
unfolding collect_in collect
collect_in_full prefix limit reverse k v r e full = rw e (ground arith)

collect_in_room :
    (prefix : Bytes) (limit : ℕ) (reverse : Bool) (k v : Bytes) (r : Raw)
    → has_prefix k prefix ≡ true
    → length r.values < limit
    → collect_in prefix (pos limit) reverse k v r ≡ ok (true, append k v r)
unfolding collect_in collect
collect_in_room prefix limit reverse k v r e room = rw e (ground arith)

appended-nil : (r : Raw) → appended [] r ≡ r
appended-nil r = rw (append-nil (r.values), append-nil (r.keys)) refl

appended-append :
    (k v : Bytes) (rows : List Row) (r : Raw)
    → appended rows (append k v r) ≡ appended ((k, v) ∷ rows) r
appended-append k v rows r =
    rw
      (
        append_assoc (r.values) (v ∷ []) (map (λ (x : Row). x.1) rows),
        append_assoc (r.keys) (k ∷ []) (map (λ (x : Row). x.0) rows),
      )
      refl

pub length-rest_token :
    (reverse : Bool) (rows : List Row) → length (rest_token reverse rows empty).values ≡ 0
length-rest_token reverse [] = refl
length-rest_token false (x ∷ rows) = refl
length-rest_token true (x ∷ rows) = refl

-- The page from the rows under the prefix, up to where the iteration leaves it.
pub visit-collect_in :
    (prefix : Bytes) (limit room : ℕ) (reverse : Bool) (rows rest : List Row) (r : Raw)
    → length r.values + room ≡ limit
    → All (λ x. has_prefix x.0 prefix ≡ true) rows
    → Leaves prefix rest
    → visit (collect_in prefix (pos limit) reverse) (rows ++ rest) r
      ≡ ok (rest_token reverse (drop room rows) (appended (take room rows) r))
unfolding visit
visit-collect_in prefix limit zero reverse [] [] r e h leaves = ap ok (sym (appended-nil r))
visit-collect_in prefix limit (suc room) reverse [] [] r e h leaves = ap ok (sym (appended-nil r))
visit-collect_in prefix limit zero reverse [] ((k, v) ∷ rest) r e h leaves =
    rw (collect_in_stop prefix limit reverse k v r leaves) (ap ok (sym (appended-nil r)))
visit-collect_in prefix limit (suc room) reverse [] ((k, v) ∷ rest) r e h leaves =
    rw (collect_in_stop prefix limit reverse k v r leaves) (ap ok (sym (appended-nil r)))
visit-collect_in prefix limit zero reverse ((k, v) ∷ rows) rest r e (here, h) leaves =
    rw (collect_in_full prefix limit reverse k v r here (omega arith))
      (ap (λ x. ok (with_token reverse k x)) (sym (appended-nil r)))
visit-collect_in prefix limit (suc room) reverse ((k, v) ∷ rows) rest r e (here, h) leaves =
    let longer : length (r.values ++ (v ∷ [])) ≡ length r.values + 1 =
      length-append (r.values) (v ∷ []) in
    rw (collect_in_room prefix limit reverse k v r here (omega arith)) (
      visit-collect_in prefix limit room reverse rows rest (append k v r) (omega arith) h leaves
      ∙ ap (λ x. ok (rest_token reverse (drop room rows) x))
          (appended-append k v (take room rows) r))

-- The neighbour of the token's row, in the direction of the iteration.
pub visit-neighbour :
    (prefix k v : Bytes) (reverse : Bool) (rows rest : List Row) (r : Raw)
    → has_prefix k prefix ≡ true
    → All (λ x. has_prefix x.0 prefix ≡ true) rows
    → All (λ x. equal x.0 k ≡ false) rows
    → Leaves prefix rest
    → visit (neighbour prefix k reverse) ((k, v) ∷ (rows ++ rest)) r
      ≡ ok (rest_token reverse rows r)
unfolding visit neighbour
visit-neighbour prefix k v reverse [] [] r e h ne leaves = rw (e, equal_self k) refl
visit-neighbour prefix k v reverse [] ((j, w) ∷ rest) r e h ne leaves =
    rw (e, equal_self k, leaves) refl
visit-neighbour prefix k v reverse ((j, w) ∷ rows) rest r e (here, h) (other, ne) leaves =
    rw (e, equal_self k, here, other) refl
