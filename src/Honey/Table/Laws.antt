-- ===== src/Honey/Table/Laws.antt =====
-- honey/tables.go: reads, iterations and first pages of a table.
use yellowstone_common.Common.{
  ℕ, zero, suc, ◌+◌, ◌≤◌, ◌<◌, ◌≡◌, ◌≢◌, refl, sym, ap, ◌∙◌, arith, Bool, true, false,
  if◌then◌else◌, Bool-cases, ◌⊎◌, inl, inr, length, take, drop, map, Option, none, List, [], ◌∷◌,
  ◌++◌, Bytes, length-append,
}
use mathlib.Core.List.{append-nil, append_assoc}
use yellowstone_common.Common.Compare.{has_prefix}
use yellowstone_common.Common.Int.{pos}
use yellowstone_common.Common.Outcome.{Outcome, ok, >>=-ext}
use yellowstone_common.Honey.Store.{Error, Store, Row, Visit, visit, go_on, ReadsWrites}
use yellowstone_common.Honey.Table
use yellowstone_common.Honey.Table.{
  Utils, Concats, Table, PaginationToken, slice_from, strip, get_full_key, each_prefix,
}
use yellowstone_common.Honey.Table.Pages.{
  Raw, empty, token, collect, append, with_token, list_prefixed_paginated,
}

-- Two keys under ids neither of which is a prefix of the other are different.
prefix_free :
    (a b x y : Bytes) → a ++ x ≡ b ++ y → (has_prefix a b ≡ true) ⊎ (has_prefix b a ≡ true)
prefix_free a [] x y e = inl refl
prefix_free [] (b ∷ ys) x y e = inr refl
prefix_free (a ∷ xs) (b ∷ ys) x y e = ground (arith, prefix_free xs ys x y)

-- The rows under a prefix, in order.
abbrev pub under : Bytes → List Row → List Row
under prefix [] = []
under prefix ((k, v) ∷ rows) =
    let rest = under prefix rows in if has_prefix k prefix then (k, v) ∷ rest else rest

-- What the store's iteration does: it visits the rows under the prefix, in order.
pub record Iterates (st : Store) (rows : st.Txn → List Row) : Type 1 where
  pub each_prefix :
      (S : Type 0) (t : st.Txn) (p : Bytes) (f : Visit S) (s : S)
      → st.each_prefix S t p f s ≡ visit f (under p (rows t)) s

-- The rows of a table under a prefix, by their keys in the table.
abbrev pub entries : Bytes → Bytes → List Row → List Row
entries table_id prefix [] = []
entries table_id prefix ((k, v) ∷ rows) =
    let rest = entries table_id prefix rows in
    if has_prefix k (table_id ++ prefix) then (drop (length table_id) k, v) ∷ rest else rest

pub length-has_prefix : (k a b : Bytes) → has_prefix k (a ++ b) ≡ true → length a ≤ length k
length-has_prefix k [] b e = omega arith
length-has_prefix [] (x ∷ a) b e = absurd (ground arith)
length-has_prefix (y ∷ k) (x ∷ a) b e = ground (arith, length-has_prefix k a b)

pub strip_lem :
    {S : Type 0} (id : Bytes) (f : Visit S) (k v : Bytes) (s : S)
    → length id ≤ length k
    → strip id f k v s ≡ f (drop (length id) k) v s
unfolding strip slice_from
strip_lem id f k v s h = ground arith

pub go_on-ext :
    {S : Type 0} (g h : S → Outcome Error S)
    → ((s : S) → g s ≡ h s)
    → (r : Bool × S) → go_on g r ≡ go_on h r
go_on-ext g h same (true, s) = same s
go_on-ext g h same (false, s) = refl

-- The callback of a table runs on its rows, with their keys in the table.
visit-strip :
    {S : Type 0} (id prefix : Bytes) (f : Visit S) (rows : List Row) (s : S)
    → visit (strip id f) (under (id ++ prefix) rows) s ≡ visit f (entries id prefix rows) s
unfolding visit
visit-strip id prefix f [] s = refl
visit-strip id prefix f ((k, v) ∷ rows) s =
    let rest =
      go_on-ext (visit (strip id f) (under (id ++ prefix) rows)) (visit f (entries id prefix rows))
        (visit-strip id prefix f rows) in
    elim (Bool-cases (has_prefix k (id ++ prefix))) [
      | inl holds ↦
          rw (holds, strip_lem id f k v s (length-has_prefix k id prefix holds))
            (>>=-ext (f (drop (length id) k) v s)
              (go_on (visit (strip id f) (under (id ++ prefix) rows)))
              (go_on (visit f (entries id prefix rows))) rest)
      | inr fails ↦ rw fails (visit-strip id prefix f rows s)
    ]

-- What the first page holds, from the room that is left in it and the rows.
abbrev pub next_of : List Row → Option PaginationToken → Option PaginationToken
next_of [] d = d
next_of ((k, v) ∷ rows) d = token k false

abbrev keys_of : List Row → List Bytes
keys_of rows = map (λ r. r.0) rows

abbrev values_of : List Row → List Bytes
values_of rows = map (λ r. r.1) rows

abbrev filled : ℕ → List Row → Raw → Raw
filled room rows r = record r {
  values = r.values ++ values_of (take room rows);
  keys = r.keys ++ keys_of (take room rows);
  next_pagination_token = next_of (drop room rows) (r.next_pagination_token);
}

collect_full :
    (limit : ℕ) (k v : Bytes) (r : Raw)
    → length r.values ≡ limit
    → collect (pos limit) false k v r ≡ ok (false, with_token false k r)
unfolding collect
collect_full limit k v r e = ground arith

collect_room :
    (limit : ℕ) (k v : Bytes) (r : Raw)
    → length r.values < limit
    → collect (pos limit) false k v r ≡ ok (true, append k v r)
unfolding collect
collect_room limit k v r h = ground arith

filled-append :
    (room : ℕ) (k v : Bytes) (rows : List Row) (r : Raw)
    → filled room rows (append k v r) ≡ filled (suc room) ((k, v) ∷ rows) r
filled-append room k v rows r =
    rw
      (
        append_assoc (r.values) (v ∷ []) (values_of (take room rows)),
        append_assoc (r.keys) (k ∷ []) (keys_of (take room rows)),
      )
      refl

visit-collect :
    (limit room : ℕ) (rows : List Row) (r : Raw)
    → length r.values + room ≡ limit
    → visit (collect (pos limit) false) rows r ≡ ok (filled room rows r)
unfolding visit
visit-collect limit zero [] r e = rw (append-nil (r.values), append-nil (r.keys)) refl
visit-collect limit (suc room) [] r e = rw (append-nil (r.values), append-nil (r.keys)) refl
visit-collect limit zero ((k, v) ∷ rows) r e =
    rw (collect_full limit k v r (omega arith), append-nil (r.values), append-nil (r.keys)) refl
visit-collect limit (suc room) ((k, v) ∷ rows) r e =
    let longer : length (r.values ++ (v ∷ [])) ≡ length r.values + 1 =
      length-append (r.values) (v ∷ []) in
    rw (collect_room limit k v r (omega arith)) (
      visit-collect limit room rows (append k v r) (omega arith)
      ∙ ap ok (filled-append room k v rows r))

module _ (st : Store) (utils : Utils) (concats : Concats utils) where
  keys_ne :
      (a b : Table) (key other : Bytes)
      → has_prefix a.table_id b.table_id ≡ false
      → has_prefix b.table_id a.table_id ≡ false
      → get_full_key st utils b other ≢ get_full_key st utils a key
  unfolding get_full_key
  keys_ne a b key other ab ba e =
      let e' = sym (concats.bytes (b.table_id) other) ∙ e ∙ concats.bytes (a.table_id) key in
      elim (prefix_free (b.table_id) (a.table_id) other key e') [
        | inl h ↦ ground arith
        | inr h ↦ ground arith
      ]

  -- What is written under a key is read back, and a read of another table, neither of whose ids is a
  -- prefix of the other's, is as it was.
  pub get-set :
      (laws : ReadsWrites st) (a b : Table) (t t' : st.Txn) (key value other : Bytes)
      → has_prefix a.table_id b.table_id ≡ false
      → has_prefix b.table_id a.table_id ≡ false
      → Table.set st utils a t key value ≡ ok t'
      → (Table.get st utils a t' key ≡ ok value)
        × (Table.get st utils b t' other ≡ Table.get st utils b t other)
  unfolding Table.get Table.set
  get-set laws a b t t' key value other ab ba h = (
    laws.get-set t t' (get_full_key st utils a key) value h,
    laws.get-set_ne t t' (get_full_key st utils a key) (get_full_key st utils b other) value h
        (λ e. keys_ne a b key other ab ba e),
  )

  -- Iteration over a prefix of the table runs the callback on the table's rows there, in the store's
  -- order, with their keys in the table; no key is too short to strip.
  pub each_prefix-entries :
      (rows : st.Txn → List Row) (laws : Iterates st rows) {S : Type 0} (a : Table) (t : st.Txn)
      (prefix : Bytes)
      → (f : Visit S) (s : S)
      → each_prefix st utils a t prefix f s ≡ visit f (entries (a.table_id) prefix (rows t)) s
  unfolding each_prefix get_full_key
  each_prefix-entries rows laws a t prefix f s =
      laws.each_prefix _ t (utils.concat_bytes (a.table_id) prefix) (strip (a.table_id) f) s
      ∙ ap (λ p. visit (strip (a.table_id) f) (under p (rows t)) s)
          (concats.bytes (a.table_id) prefix)
      ∙ visit-strip (a.table_id) prefix f (rows t) s

  -- The first page for a limit that is not negative: the first rows under the prefix, at most `limit`,
  -- and a forward token at the first row that is left out, if there is one.
  pub first_page :
      (rows : st.Txn → List Row) (laws : Iterates st rows) (a : Table) (t : st.Txn) (prefix : Bytes)
      (limit : ℕ)
      → list_prefixed_paginated st utils a t prefix none (pos limit)
        ≡ ok record {
          values = map (λ r. r.1) (take limit (entries (a.table_id) prefix (rows t)));
          keys = map (λ r. r.0) (take limit (entries (a.table_id) prefix (rows t)));
          next_pagination_token = next_of (drop limit (entries (a.table_id) prefix (rows t))) none;
          previous_pagination_token = none;
        }
  unfolding list_prefixed_paginated
  first_page rows laws a t prefix limit =
      each_prefix-entries rows laws a t prefix (collect (pos limit) false) empty
      ∙ visit-collect limit limit (entries (a.table_id) prefix (rows t)) empty (omega arith)
