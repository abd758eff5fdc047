-- ===== src/Honey/Table/Traverse.antt =====
-- honey/tables.go: following the forward tokens of `listPrefixedPaginated` from the first page to the last.
use yellowstone_common.Common.{
  ℕ, zero, suc, ◌≤◌, ◌<◌, ◌≡◌, refl, sym, ap, ◌∙◌, arith, Bool, true, false, length, take, drop,
  map, All, reverse_onto, Option, none, some, List, [], ◌∷◌, ◌++◌, Bytes, length-drop, subst,
  All-front, All-weaken,
}
use mathlib.Core.List.{append-nil}
use yellowstone_common.Common.Compare.{has_prefix, equal_apart, equal_apart_back}
use yellowstone_common.Common.Int.{pos}
use yellowstone_common.Common.Outcome.{Outcome, ok, panic, ◌>>=◌}
use yellowstone_common.Honey.Store.{Error, Store, Row}
use yellowstone_common.Honey.Table.{Utils, Concats, Table, PaginationToken}
use yellowstone_common.Honey.Table.Pages.{Raw, empty, token, list_prefixed_paginated}
use yellowstone_common.Honey.Table.Laws.{Iterates, under, entries, next_of, first_page}
use yellowstone_common.Honey.Table.Steps.{appended, rest_token}
use yellowstone_common.Honey.Table.Walk.{Ranges, at, Around, forward_page}

-- No key among the rows, and the further ones, extends that of a row before it.
abbrev pub Apart : List Row → List Row → Type 0
Apart [] beyond = Unit {0}
Apart (x ∷ rows) beyond = All (λ y. has_prefix y.0 x.0 ≡ false) (rows ++ beyond) × Apart rows beyond

module _ (st : Store) (utils : Utils) (a : Table) (t : st.Txn) (prefix : Bytes) (limit : ℕ) where
  -- Page after page until there is no forward token; `panic` is that the fuel ran out.
  abbrev pub values_from : ℕ → Option PaginationToken → Outcome Error (List Bytes)
  values_from zero from = panic
  values_from (suc fuel) from =
      list_prefixed_paginated st utils a t prefix from (pos limit) >>= λ r.
      elim r.next_pagination_token as (λ n. Outcome Error (List Bytes)) [
        | none ↦ ok r.values
        | some next ↦ values_from fuel (some next) >>= λ rest. ok (r.values ++ rest)
      ]

module _ (st : Store) (rows : st.Txn → List Row) (a : Table) (t : st.Txn) (prefix : Bytes)
    (behind beyond : List Row) where
  -- The rows under the prefix are `back`, the nearest first, and then `ahead`; around them are `behind`, the
  -- nearest first, and `beyond`.
  pub record Split (back ahead : List Row) : Type 0 where
    pub there :
        under a.table_id (rows t)
        ≡ reverse_onto
            (map (at a.table_id) (back ++ behind))
            (map (at a.table_id) (ahead ++ beyond))
    pub under_back : All (λ x. has_prefix x.0 prefix ≡ true) back
    pub under_ahead : All (λ x. has_prefix x.0 prefix ≡ true) ahead
    pub outside_back : All (λ x. has_prefix x.0 prefix ≡ false) behind
    pub outside_ahead : All (λ x. has_prefix x.0 prefix ≡ false) beyond
    pub apart_back : All (λ x. All (λ y. has_prefix y.0 x.0 ≡ false) ahead) back
    pub apart : Apart ahead beyond

  Split-Around :
      (k v : Bytes) (back ahead : List Row)
      → Split back ((k, v) ∷ ahead)
      → Around st rows a t prefix k v back behind ahead beyond
  Split-Around k v back ahead s = record {
    there = s.there;
    here = s.under_ahead.0;
    under_back = s.under_back;
    under_ahead = s.under_ahead.1;
    outside_back = s.outside_back;
    outside_ahead = s.outside_ahead;
    other_back = All-weaken _ _ back (λ x h. equal_apart_back x.0 k h.0) s.apart_back;
    other_ahead =
        All-weaken _ _ ahead (λ x h. equal_apart x.0 k h) (All-front _ ahead beyond s.apart.0);
    alone = s.apart.0;
  }

  Split-next : (x : Row) (back ahead : List Row) → Split back (x ∷ ahead) → Split (x ∷ back) ahead
  Split-next x back ahead s = record {
    there = s.there;
    under_back = (s.under_ahead.0, s.under_back);
    under_ahead = s.under_ahead.1;
    outside_back = s.outside_back;
    outside_ahead = s.outside_ahead;
    apart_back =
        (All-front _ ahead beyond s.apart.0, All-weaken _ _ back (λ y h. h.1) s.apart_back);
    apart = s.apart.1;
  }

  Split-skip :
      (n : ℕ) (back ahead : List Row)
      → Split back ahead
      → Split (reverse_onto (take n ahead) back) (drop n ahead)
  Split-skip zero back ahead s = s
  Split-skip (suc n) back [] s = s
  Split-skip (suc n) back (x ∷ ahead) s = Split-skip n (x ∷ back) ahead (Split-next x back ahead s)

abbrev all_values : List Row → List Bytes
all_values rows = map (λ x. x.1) rows

values_take-drop :
    (n : ℕ) (rows : List Row)
    → all_values (take n rows) ++ all_values (drop n rows) ≡ all_values rows
values_take-drop zero rows = refl
values_take-drop (suc n) [] = refl
values_take-drop (suc n) ((k, v) ∷ rows) = ap (◌∷◌ v) (values_take-drop n rows)

length-drop-suc :
    (n : ℕ) (x : Row) (rows : List Row) → length (drop (suc n) (x ∷ rows)) ≤ length rows
length-drop-suc n x rows = omega (arith, length-drop {0} n rows)

values_of_page :
    (rows : List Row) (reverse : Bool) (back : List Row)
    → (appended rows (rest_token reverse back empty)).values ≡ all_values rows
values_of_page rows reverse [] = refl
values_of_page rows false (x ∷ back) = refl
values_of_page rows true (x ∷ back) = refl

no_next :
    (rows back : List Row)
    → (appended rows (rest_token true back empty)).next_pagination_token ≡ none
no_next rows [] = refl
no_next rows (x ∷ back) = refl

module _ (st : Store) (utils : Utils) (a : Table) (t : st.Txn) (prefix : Bytes) (limit : ℕ) where
  -- One page, and what follows from its token.
  one_page :
      (fuel : ℕ) (from : Option PaginationToken) (r : Raw) (rest : List Row)
      → list_prefixed_paginated st utils a t prefix from (pos limit) ≡ ok (rest_token false rest r)
      → r.next_pagination_token ≡ none
      → ((k v : Bytes) (more : List Row)
          → rest ≡ (k, v) ∷ more
          → values_from st utils a t prefix limit fuel (token k false) ≡ ok (all_values rest))
      → values_from st utils a t prefix limit (suc fuel) from ≡ ok (r.values ++ all_values rest)
  one_page fuel from r [] page last next = rw (page, last) (ap ok (sym (append-nil (r.values))))
  one_page fuel from r ((k, v) ∷ rest) page last next = rw (page, next k v rest refl) refl

abbrev first_raw : ℕ → List Row → Raw
first_raw limit es = record {
  values = map (λ r. r.1) (take limit es);
  keys = map (λ r. r.0) (take limit es);
  next_pagination_token = next_of (drop limit es) none;
  previous_pagination_token = none;
}

first_raw_lem :
    (limit : ℕ) (es : List Row)
    → Path
        (Outcome Error Raw)
        (ok (first_raw limit es))
        (ok (rest_token false (drop limit es) (appended (take limit es) empty)))
first_raw_lem limit es = with_rest (drop limit es) (take limit es)
  where
    with_rest :
        (rest shown : List Row)
        → Path
            (Outcome Error Raw)
            (ok (record {
              values = map (λ r. r.1) shown;
              keys = map (λ r. r.0) shown;
              next_pagination_token = next_of rest none;
              previous_pagination_token = none;
            }))
            (ok (rest_token false rest (appended shown empty)))
    with_rest [] shown = refl
    with_rest (x ∷ rest) shown = refl

module _ (st : Store) (utils : Utils) (concats : Concats utils) (rows : st.Txn → List Row)
    (laws : Ranges st rows) (a : Table) (t : st.Txn) (prefix : Bytes) (behind beyond : List Row)
    (fewer : ℕ) where
  values_ahead :
      (fuel : ℕ) (k v : Bytes) (back ahead : List Row)
      → Split st rows a t prefix behind beyond back ((k, v) ∷ ahead)
      → length ahead < fuel
      → values_from st utils a t prefix (suc fewer) fuel (token k false) ≡ ok (v ∷ all_values ahead)
  values_ahead zero k v back ahead s h = absurd (omega arith)
  values_ahead (suc fuel) k v back ahead s h =
      let page =
        forward_page st utils concats rows laws a t prefix k v back behind ahead beyond
          (Split-Around st rows a t prefix behind beyond k v back ahead s) (suc fewer) in
      let shown = take (suc fewer) ((k, v) ∷ ahead) in
      let skipped =
        Split-skip st rows a t prefix behind beyond (suc fewer) back ((k, v) ∷ ahead) s in
      one_page st utils a t prefix (suc fewer) fuel (token k false)
        (appended shown (rest_token true back empty)) (drop (suc fewer) ((k, v) ∷ ahead)) page
        (no_next shown back)
        (λ j w more e.
          values_ahead fuel j w (reverse_onto shown back) more
            (subst (λ r. Split st rows a t prefix behind beyond (reverse_onto shown back) r) e
              skipped)
            (omega (arith, length-drop-suc fewer (k, v) ahead, ap (length {A = Row}) e))
          ∙ ap (λ x. ok (all_values x)) (sym e))
      ∙ ap ok (
          ap (λ x. x ++ all_values (drop (suc fewer) ((k, v) ∷ ahead)))
            (values_of_page shown true back)
          ∙ values_take-drop (suc fewer) ((k, v) ∷ ahead))

  -- Where no key of the table extends that of a row under the prefix before it: from the first page, with a limit that
  -- is positive, the pages end, after no more than one for each row and one more, and together they hold the value of
  -- every row under the prefix, once and in order.
  pub values_from_first :
      (iterates : Iterates st rows) (es : List Row) (fuel : ℕ)
      → entries a.table_id prefix (rows t) ≡ es
      → Split st rows a t prefix behind beyond [] es
      → length es < fuel
      → values_from st utils a t prefix (suc fewer) fuel none ≡ ok (map (λ x. x.1) es)
  values_from_first iterates es zero all s h = absurd (omega arith)
  values_from_first iterates es (suc fuel) all s h =
      let shown = take (suc fewer) es in
      let rest = drop (suc fewer) es in
      let page : list_prefixed_paginated st utils a t prefix none (pos (suc fewer))
          ≡ ok (rest_token false rest (appended shown empty)) =
        first_page st utils concats rows iterates a t prefix (suc fewer)
        ∙ ap (λ xs. ok (first_raw (suc fewer) xs)) all
        ∙ first_raw_lem (suc fewer) es in
      one_page st utils a t prefix (suc fewer) fuel none (appended shown empty) rest page refl
        (λ j w more e.
          values_ahead fuel j w (reverse_onto shown []) more
            (subst (λ r. Split st rows a t prefix behind beyond (reverse_onto shown []) r) e
              (Split-skip st rows a t prefix behind beyond (suc fewer) [] es s))
            (omega (arith, length-drop {0} (suc fewer) es, ap (length {A = Row}) e))
          ∙ ap (λ x. ok (all_values x)) (sym e))
      ∙ ap ok (values_take-drop (suc fewer) es)
