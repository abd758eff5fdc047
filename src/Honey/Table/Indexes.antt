-- ===== src/Honey/Table/Indexes.antt =====
-- honey/tables.go: what `OneToManyUint64Index.List` visits, before and after an `Add`.
pub mod Deletes
mod Runs
use yellowstone_common.Common.{
  ℕ, suc, zero, ◌+◌, ◌≤◌, ◌<◌, ◌^◌, ◌≡◌, ◌⊎◌, inl, inr, refl, sym, ap, ◌∙◌, subst, arith, Bool,
  true, false, if◌then◌else◌, Bool-cases, length, length-append, drop, map, Option, none, some,
  List, [], ◌∷◌, ◌++◌, Bytes, All, All-append, drop_front, All-split, ◌↔◌,
}
use mathlib.Core.List.{map-append}
use yellowstone_common.Common.Compare.{has_prefix, has_prefix-append, has_prefix_front}
use yellowstone_common.Common.Outcome.{Outcome, ok, err, panic, ◌>>=◌, or_panic, >>=-ext}
use yellowstone_common.Honey.Store.{Error, Store, Row, VisitKey, visit, go_on}
use yellowstone_common.Honey.Table
use yellowstone_common.Honey.Table.{
  Utils, Concats, Table, slice_from, strip, strip_key, each_prefix_keys, get_full_key,
}
use yellowstone_common.Honey.Table.Laws.{under, entries, go_on-ext, length-has_prefix}
use yellowstone_common.Honey.Table.BigEndian.{bytes_to_uint64-uint64_to_bytes}
use yellowstone_common.Honey.Table.Uint64.{bytes_to_uint64, uint64_to_bytes, big_endian}
use yellowstone_common.Honey.Table.OneToManyUint64
use yellowstone_common.Honey.Table.Items.{
  number, number_ok, length-drop_le, items, Long, entries_of_item, items_of_item, items-append,
  Long-append, length-uint64_to_bytes,
}

-- The number behind a key of the index is in big-endian order.
pub record ConcatsUint64 (utils : Utils) : Type 0 where
  pub uint64 : (a : Bytes) (u : ℕ) → utils.concat_uint64 a u ≡ a ++ uint64_to_bytes u

-- What the store's iteration over keys does.
pub record IteratesKeys (st : Store) (rows : st.Txn → List Row) : Type 1 where
  pub each_prefix_keys :
      (S : Type 0) (t : st.Txn) (p : Bytes) (f : VisitKey S) (s : S)
      → st.each_prefix_keys S t p f s ≡ visit (λ k v. f k) (under p (rows t)) s

-- What a write does to the rows: it adds one, or changes the value of one.
pub record Writes (st : Store) (rows : st.Txn → List Row) : Type 0 where
  pub set :
      (t t' : st.Txn) (k v : Bytes)
      → st.set t k v ≡ ok t'
      → (before after : List Row) × (rows t' ≡ before ++ (k, v) ∷ after)
        × ((rows t ≡ before ++ after) ⊎ ((old : Bytes) × (rows t ≡ before ++ (k, old) ∷ after)))

-- The callback of `List` on numbers, until it says to stop or fails.
abbrev pub visit_items :
    {S : Type 0} → (ℕ → S → Outcome Error (Bool × S)) → List ℕ → S → Outcome Error S
visit_items fn [] s = ok s
visit_items fn (u ∷ us) s = fn u s >>= go_on (visit_items fn us)

module _ {S : Type 0} (pk : Bytes) (fn : ℕ → S → Outcome Error (Bool × S)) where
  abbrev on_key : VisitKey S
  on_key key s = (slice_from (length pk) key >>= bytes_to_uint64) >>= λ item. fn item s

  on_key_lem :
      (key : Bytes) (s : S)
      → length pk + 8 ≤ length key
      → on_key key s ≡ fn (number (drop (length pk) key)) s
  unfolding slice_from
  on_key_lem key s h =
      let e = number_ok (drop (length pk) key) (length-drop_le (length pk) 8 key h) in
      ground (arith, h, e)

  strip_key_lem :
      (id k : Bytes) (s : S)
      → length id ≤ length k
      → strip_key id on_key k s ≡ on_key (drop (length id) k) s
  unfolding strip_key slice_from
  strip_key_lem id k s h = ground arith

  -- The keys of the index, from those of the store.
  visit-strip_key :
      (id : Bytes) (rows : List Row) (s : S)
      → Long id pk rows
      → visit (λ k v. strip_key id on_key k) (under (id ++ pk) rows) s
        ≡ visit_items fn (items id pk rows) s
  unfolding visit
  visit-strip_key id [] s h = refl
  visit-strip_key id ((k, v) ∷ rows) s h = elim (Bool-cases (has_prefix k (id ++ pk))) [
    | inl holds ↦
        let (long, rest) = Long-cons id k v rows holds h in
        rw
          (
            holds,
            strip_key_lem id k s (length-has_prefix k id pk holds),
            on_key_lem (drop (length id) k) s long,
          )
          (>>=-ext (fn (number (drop (length pk) (drop (length id) k))) s) _ _ (
            go_on-ext (visit (λ j w. strip_key id on_key j) (under (id ++ pk) rows))
              (visit_items fn (items id pk rows)) (λ s'. visit-strip_key id rows s' rest)))
    | inr fails ↦ rw fails (visit-strip_key id rows s (Long-skip id k v rows fails h))
  ]
    where
      Long-cons :
          (id k v : Bytes) (rows : List Row)
          → has_prefix k (id ++ pk) ≡ true
          → Long id pk ((k, v) ∷ rows)
          → (length pk + 8 ≤ length (drop (length id) k)) × Long id pk rows
      Long-cons id k v rows holds h =
          subst
            (λ b.
              All (λ r. length pk + 8 ≤ length r.0)
                (if b then (drop (length id) k, v) ∷ entries id pk rows else entries id pk rows))
            holds h

      Long-skip :
          (id k v : Bytes) (rows : List Row)
          → has_prefix k (id ++ pk) ≡ false
          → Long id pk ((k, v) ∷ rows)
          → Long id pk rows
      Long-skip id k v rows fails h =
          subst
            (λ b.
              All (λ r. length pk + 8 ≤ length r.0)
                (if b then (drop (length id) k, v) ∷ entries id pk rows else entries id pk rows))
            fails h

module _ (st : Store) (utils : Utils) (concats : Concats utils) (numbers : ConcatsUint64 utils)
    (rows : st.Txn → List Row) (keys : IteratesKeys st rows) (writes : Writes st rows) (i : Table)
    (pk : Bytes) where
  pub list-items :
      {S : Type 0} (t : st.Txn) (fn : ℕ → S → Outcome Error (Bool × S)) (s : S)
      → Long i.table_id pk (rows t)
      → OneToManyUint64.list st utils i t pk fn s ≡ visit_items fn (items i.table_id pk (rows t)) s
  unfolding OneToManyUint64.list each_prefix_keys get_full_key
  list-items t fn s h =
      keys.each_prefix_keys _ t (utils.concat_bytes (i.table_id) pk)
        (strip_key (i.table_id) (on_key pk fn)) s
      ∙ ap (λ p. visit (λ k v. strip_key (i.table_id) (on_key pk fn) k) (under p (rows t)) s)
          (concats.bytes (i.table_id) pk)
      ∙ visit-strip_key pk fn (i.table_id) (rows t) s h

  pub item_key :
      (item : ℕ)
      → get_full_key st utils i (utils.concat_uint64 pk item)
        ≡ i.table_id ++ (pk ++ uint64_to_bytes item)
  unfolding get_full_key
  item_key item =
      concats.bytes (i.table_id) (utils.concat_uint64 pk item)
      ∙ ap (λ k. i.table_id ++ k) (numbers.uint64 pk item)

  -- A row of an item among others.
  items_around :
      (t : st.Txn) (before after : List Row) (item : ℕ) (v : Bytes)
      → item < 2 ^ 64
      → rows t ≡ before ++ (i.table_id ++ (pk ++ uint64_to_bytes item), v) ∷ after
      → items i.table_id pk (rows t)
        ≡ items i.table_id pk before ++ item ∷ items i.table_id pk after
  items_around t before after item v h e =
      ap (items i.table_id pk) e
      ∙ items-append i.table_id pk before ((i.table_id ++ (pk ++ uint64_to_bytes item), v) ∷ after)
      ∙ ap (λ xs. items i.table_id pk before ++ xs) (items_of_item i.table_id pk v item after h)

  Long-around :
      (before after : List Row) (item : ℕ) (v : Bytes)
      → Long i.table_id pk before
      → Long i.table_id pk after
      → Long i.table_id pk (before ++ (i.table_id ++ (pk ++ uint64_to_bytes item), v) ∷ after)
  Long-around before after item v h g =
      (Long-append i.table_id pk before ((i.table_id ++ (pk ++ uint64_to_bytes item), v) ∷ after)).1
        (
          h,
          subst (All (λ r. length pk + 8 ≤ length r.0))
              (sym (entries_of_item i.table_id pk (uint64_to_bytes item) v after))
              (
                omega (arith, length-append pk (uint64_to_bytes item), length-uint64_to_bytes item),
                g,
              ),
        )

  list_around :
      {S : Type 0} (t : st.Txn) (before after : List Row) (item : ℕ) (v : Bytes)
      (fn : ℕ → S → Outcome Error (Bool × S)) (s : S)
      → item < 2 ^ 64
      → Long i.table_id pk before × Long i.table_id pk after
      → rows t ≡ before ++ (i.table_id ++ (pk ++ uint64_to_bytes item), v) ∷ after
      → OneToManyUint64.list st utils i t pk fn s
        ≡ visit_items fn (items i.table_id pk before ++ item ∷ items i.table_id pk after) s
  list_around t before after item v fn s small long e =
      list-items t fn s
        (subst (Long i.table_id pk) (sym e) (Long-around before after item v long.0 long.1))
      ∙ ap (λ us. visit_items fn us s) (items_around t before after item v small e)

  -- The rows on either side of a write.
  Long-parts :
      (t : st.Txn) (before after : List Row) (item : ℕ)
      → Long i.table_id pk (rows t)
      → (rows t ≡ before ++ after)
        ⊎ ((old : Bytes) × (rows t
              ≡ before ++ (i.table_id ++ (pk ++ uint64_to_bytes item), old) ∷ after))
      → Long i.table_id pk before × Long i.table_id pk after
  Long-parts t before after item long (inl e) =
      (Long-append i.table_id pk before after).0 (subst (Long i.table_id pk) e long)
  Long-parts t before after item long (inr (old, e)) =
      let row : Row = (i.table_id ++ (pk ++ uint64_to_bytes item), old) in
      let (front, back) =
        (Long-append i.table_id pk before (row ∷ after)).0 (subst (Long i.table_id pk) e long) in
      (
        front,
        (subst (All (λ r. length pk + 8 ≤ length r.0))
            (entries_of_item i.table_id pk (uint64_to_bytes item) old after) back).1,
      )

  -- Where every key under `pk` ends in a number: `Add` puts the item into what `List` visits, once, and leaves the
  -- rest in its order; or the item was there, and nothing changes.
  pub list-add :
      {S : Type 0} (t t' : st.Txn) (item : ℕ) (fn : ℕ → S → Outcome Error (Bool × S)) (s : S)
      → item < 2 ^ 64
      → Long i.table_id pk (rows t)
      → OneToManyUint64.add st utils i t pk item ≡ ok t'
      → (xs : List ℕ) × (ys : List ℕ) × (OneToManyUint64.list st utils i t' pk fn s
          ≡ visit_items fn (xs ++ item ∷ ys) s)
        × ((OneToManyUint64.list st utils i t pk fn s ≡ visit_items fn (xs ++ ys) s)
            ⊎ (OneToManyUint64.list st utils i t pk fn s ≡ visit_items fn (xs ++ item ∷ ys) s))
  unfolding OneToManyUint64.add Table.set
  list-add t t' item fn s small long added =
      let (before, after, now, was) =
        writes.set t t' (i.table_id ++ (pk ++ uint64_to_bytes item)) []
          (subst (λ k. st.set t k [] ≡ ok t') (item_key item) added) in
      let parts = Long-parts t before after item long was in
      (
        items i.table_id pk before,
        items i.table_id pk after,
        list_around t' before after item [] fn s small parts now,
        elim was [
          | inl e ↦ inl (
              list-items t fn s long
              ∙ ap (λ us. visit_items fn us s)
                  (ap (items i.table_id pk) e ∙ items-append i.table_id pk before after))
          | inr (old, e) ↦ inr (list_around t before after item old fn s small parts e)
        ],
      )
