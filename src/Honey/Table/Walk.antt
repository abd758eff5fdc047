-- ===== src/Honey/Table/Walk.antt =====
-- honey/tables.go: the pages of `listPrefixedPaginated` behind a token.
use yellowstone_common.Common.{
  ℕ, ◌≡◌, refl, ap, ◌∙◌, arith, true, false, take, drop, map, All, reverse_onto, none, some, List,
  [], ◌∷◌, ◌++◌, Bytes, length-append, drop_front, All-append, All-weaken,
}
use yellowstone_common.Common.Compare.{
  equal, has_prefix, has_prefix_front, equal_front, equal_outside,
}
use yellowstone_common.Common.Int.{pos}
use yellowstone_common.Common.Outcome.{ok, >>=-ext}
use yellowstone_common.Honey.Store.{Store, Row, Visit, visit, go_on}
use yellowstone_common.Honey.Table.{
  Utils, Concats, Table, strip, get_full_key, bound, list_in_range,
}
use yellowstone_common.Honey.Table.Pages.{empty, collect_in, neighbour, list_prefixed_paginated}
use yellowstone_common.Honey.Table.Steps.{
  Leaves-All, appended, rest_token, length-rest_token, visit-collect_in, visit-neighbour,
}
use yellowstone_common.Honey.Table.Laws.{under, strip_lem, go_on-ext}

-- A row of a table, by its key in the store.
abbrev pub at : Bytes → Row → Row
at table_id (k, v) = (table_id ++ k, v)

-- What `EachRange` visits where a bound is the key of a row and the other the prefix that the keys have: the
-- row and those behind it in the order of iteration. `before` are the rows before it, the nearest first.
-- The upper bound takes in the keys that it is a prefix of.
pub record Ranges (st : Store) (rows : st.Txn → List Row) : Type 1 where
  pub forward :
      (S : Type 0) (t : st.Txn) (id key v : Bytes) (before after : List Row) (f : Visit S) (s : S)
      → under id (rows t) ≡ reverse_onto before ((key, v) ∷ after)
      → All (λ r. equal r.0 key ≡ false) before
      → st.each_range S t key id false f s ≡ visit f ((key, v) ∷ after) s
  pub backward :
      (S : Type 0) (t : st.Txn) (id key v : Bytes) (before after : List Row) (f : Visit S) (s : S)
      → under id (rows t) ≡ reverse_onto before ((key, v) ∷ after)
      → All (λ r. has_prefix r.0 key ≡ false) after
      → st.each_range S t id key true f s ≡ visit f ((key, v) ∷ before) s

strip_at :
    {S : Type 0} (id : Bytes) (f : Visit S) (k v : Bytes) (s : S)
    → strip id f (id ++ k) v s ≡ f k v s
strip_at id f k v s =
    strip_lem id f (id ++ k) v s (omega (arith, length-append id k))
    ∙ ap (λ j. f j v s) (drop_front id k)

visit_at :
    {S : Type 0} (id : Bytes) (f : Visit S) (rows : List Row) (s : S)
    → visit (strip id f) (map (at id) rows) s ≡ visit f rows s
unfolding visit
visit_at id f [] s = refl
visit_at id f ((k, v) ∷ rows) s = rw (strip_at id f k v s) (
    >>=-ext (f k v s) (go_on (visit (strip id f) (map (at id) rows))) (go_on (visit f rows))
      (go_on-ext (visit (strip id f) (map (at id) rows)) (visit f rows) (visit_at id f rows)))

equal-at :
    (id k : Bytes) (rows : List Row)
    → All (λ x. equal x.0 k ≡ false) rows
    → All (λ x. equal x.0 (id ++ k) ≡ false) (map (at id) rows)
equal-at id k [] h = h
equal-at id k ((j, w) ∷ rows) (here, h) = (equal_front id j k ∙ here, equal-at id k rows h)

has_prefix-at :
    (id k : Bytes) (rows : List Row)
    → All (λ x. has_prefix x.0 k ≡ false) rows
    → All (λ x. has_prefix x.0 (id ++ k) ≡ false) (map (at id) rows)
has_prefix-at id k [] h = h
has_prefix-at id k ((j, w) ∷ rows) (here, h) =
    (has_prefix_front id j k ∙ here, has_prefix-at id k rows h)

module _ (st : Store) (utils : Utils) (concats : Concats utils) (rows : st.Txn → List Row)
    (laws : Ranges st rows) (a : Table) (t : st.Txn) (k v : Bytes) (before after : List Row)
    (there : under a.table_id (rows t)
      ≡ reverse_onto (map (at a.table_id) before) (map (at a.table_id) ((k, v) ∷ after))) where
  forward_rows :
      {S : Type 0} (f : Visit S) (s : S)
      → All (λ x. equal x.0 k ≡ false) before
      → list_in_range st utils a t (some k) none false f s ≡ visit f ((k, v) ∷ after) s
  unfolding list_in_range bound get_full_key
  forward_rows f s other =
      ap (λ key. st.each_range _ t key (a.table_id) false (strip (a.table_id) f) s)
        (concats.bytes (a.table_id) k)
      ∙ laws.forward _ t (a.table_id) (a.table_id ++ k) v (map (at (a.table_id)) before)
          (map (at (a.table_id)) after) (strip (a.table_id) f) s there
          (equal-at (a.table_id) k before other)
      ∙ visit_at (a.table_id) f ((k, v) ∷ after) s

  backward_rows :
      {S : Type 0} (f : Visit S) (s : S)
      → All (λ x. has_prefix x.0 k ≡ false) after
      → list_in_range st utils a t none (some k) true f s ≡ visit f ((k, v) ∷ before) s
  unfolding list_in_range bound get_full_key
  backward_rows f s alone =
      ap (λ key. st.each_range _ t (a.table_id) key true (strip (a.table_id) f) s)
        (concats.bytes (a.table_id) k)
      ∙ laws.backward _ t (a.table_id) (a.table_id ++ k) v (map (at (a.table_id)) before)
          (map (at (a.table_id)) after) (strip (a.table_id) f) s there
          (has_prefix-at (a.table_id) k after alone)
      ∙ visit_at (a.table_id) f ((k, v) ∷ before) s

-- The rows of a table around a token's row `(k, v)`, in the order of their keys. Those under the prefix are
-- `back`, the nearest first, the row itself and `ahead`; `behind` (the nearest first) and `beyond` are the
-- others on either side. No key behind it extends the token's.
pub record Around (st : Store) (rows : st.Txn → List Row) (a : Table) (t : st.Txn)
    (prefix k v : Bytes) (back behind ahead beyond : List Row) : Type 0 where
  pub there :
      under a.table_id (rows t)
      ≡ reverse_onto
          (map (at a.table_id) (back ++ behind))
          (map (at a.table_id) ((k, v) ∷ (ahead ++ beyond)))
  pub here : has_prefix k prefix ≡ true
  pub under_back : All (λ x. has_prefix x.0 prefix ≡ true) back
  pub under_ahead : All (λ x. has_prefix x.0 prefix ≡ true) ahead
  pub outside_back : All (λ x. has_prefix x.0 prefix ≡ false) behind
  pub outside_ahead : All (λ x. has_prefix x.0 prefix ≡ false) beyond
  pub other_back : All (λ x. equal x.0 k ≡ false) back
  pub other_ahead : All (λ x. equal x.0 k ≡ false) ahead
  pub alone : All (λ x. has_prefix x.0 k ≡ false) (ahead ++ beyond)

module _ (st : Store) (utils : Utils) (concats : Concats utils) (rows : st.Txn → List Row)
    (laws : Ranges st rows) (a : Table) (t : st.Txn) (prefix k v : Bytes)
    (back behind ahead beyond : List Row)
    (around : Around st rows a t prefix k v back behind ahead beyond) (limit : ℕ) where
  others : All (λ x. equal x.0 k ≡ false) (back ++ behind)
  others = All-append _ back behind (around.other_back) (
      All-weaken _ _ behind (λ x h. equal_outside x.0 k prefix h (around.here))
        (around.outside_back))

  -- With a forward token at a row under the prefix whose key none further on extends, and a limit that is not
  -- negative: the page is that row and the rows ahead of it under the prefix, at most `limit` of them, in order,
  -- with a forward token at the first one left out and a backward token at the nearest row back, each if there
  -- is one.
  pub forward_page :
      list_prefixed_paginated st utils a t prefix
        (some (record { key = k; reverse = false }))
        (pos limit)
      ≡ ok (
          rest_token false
            (drop limit ((k, v) ∷ ahead))
            (appended (take limit ((k, v) ∷ ahead)) (rest_token true back empty)))
  unfolding list_prefixed_paginated
  forward_page =
      rw
        (backward_rows st utils concats rows laws a t k v (back ++ behind) (ahead ++ beyond)
            (around.there) (neighbour prefix k true) empty (around.alone)
          ∙ visit-neighbour prefix k v true back behind empty (around.here) (around.under_back)
              (around.other_back) (Leaves-All prefix behind (around.outside_back)))
        (forward_rows st utils concats rows laws a t k v (back ++ behind) (ahead ++ beyond)
            (around.there) (collect_in prefix (pos limit) false) (rest_token true back empty) others
          ∙ visit-collect_in prefix limit limit false ((k, v) ∷ ahead) beyond
              (rest_token true back empty) (omega (arith, length-rest_token true back))
              (around.here, around.under_ahead) (Leaves-All prefix beyond (around.outside_ahead)))

  -- With a backward token at a row under the prefix whose key none further on extends, and a limit that is not
  -- negative: the page is that row and the rows back from it under the prefix, at most `limit` of them, the
  -- nearest first, with a backward token at the first one left out and a forward token at the row next ahead,
  -- each if there is one.
  pub backward_page :
      list_prefixed_paginated st utils a t prefix
        (some (record { key = k; reverse = true }))
        (pos limit)
      ≡ ok (
          rest_token true
            (drop limit ((k, v) ∷ back))
            (appended (take limit ((k, v) ∷ back)) (rest_token false ahead empty)))
  unfolding list_prefixed_paginated
  backward_page =
      rw
        (forward_rows st utils concats rows laws a t k v (back ++ behind) (ahead ++ beyond)
            (around.there) (neighbour prefix k false) empty others
          ∙ visit-neighbour prefix k v false ahead beyond empty (around.here) (around.under_ahead)
              (around.other_ahead) (Leaves-All prefix beyond (around.outside_ahead)))
        (backward_rows st utils concats rows laws a t k v (back ++ behind) (ahead ++ beyond)
            (around.there) (collect_in prefix (pos limit) true) (rest_token false ahead empty)
            (around.alone)
          ∙ visit-collect_in prefix limit limit true ((k, v) ∷ back) behind
              (rest_token false ahead empty) (omega (arith, length-rest_token false ahead))
              (around.here, around.under_back) (Leaves-All prefix behind (around.outside_back)))
