-- ===== src/Honey/Table/Indexes/Deletes.antt =====
-- honey/tables.go: `Add` and `Delete` of a `OneToManyUint64Index`.
use yellowstone_common.Common.{
  ℕ, ◌≡◌, inl, inr, refl, sym, ap, ◌∙◌, subst, arith, Bool, false, if◌then◌else◌, List, [], ◌∷◌,
  ◌++◌, Bytes, All,
}
use yellowstone_common.Common.Compare.{equal, equal_self}
use yellowstone_common.Common.Outcome.{Outcome, ok}
use yellowstone_common.Honey.Store.{Error, Store, Row}
use yellowstone_common.Honey.Table
use yellowstone_common.Honey.Table.{Utils, Concats, Table}
use yellowstone_common.Honey.Table.Uint64.{uint64_to_bytes}
use yellowstone_common.Honey.Table.OneToManyUint64
use yellowstone_common.Honey.Table.Items.{items, Long}
use yellowstone_common.Honey.Table.Indexes.{
  ConcatsUint64, IteratesKeys, Writes, visit_items, list-items, item_key,
}

-- The rows of other keys.
abbrev pub other_rows : Bytes → List Row → List Row
other_rows k [] = []
other_rows k ((j, v) ∷ rows) =
    let rest = other_rows k rows in if equal k j then rest else (j, v) ∷ rest

-- What a delete does to the rows: those of other keys are left.
pub record Deletes (st : Store) (rows : st.Txn → List Row) : Type 0 where
  pub delete : (t t' : st.Txn) (k : Bytes) → st.delete t k ≡ ok t' → rows t' ≡ other_rows k (rows t)

-- No row has the key.
abbrev pub Lacks : Bytes → List Row → Type 0
Lacks k rows = All (λ r. equal k r.0 ≡ false) rows

other_rows-Lacks : (k : Bytes) (rows : List Row) → Lacks k rows → other_rows k rows ≡ rows
other_rows-Lacks k [] h = refl
other_rows-Lacks k ((j, v) ∷ rows) (here, h) = ground (arith, here, other_rows-Lacks k rows h)

-- A row that is put among others and taken out.
other_rows-append :
    (k v : Bytes) (before after : List Row)
    → Lacks k (before ++ after)
    → other_rows k (before ++ (k, v) ∷ after) ≡ before ++ after
other_rows-append k v [] after h =
    ap (λ b. if b then other_rows k after else (k, v) ∷ other_rows k after) (equal_self k)
    ∙ other_rows-Lacks k after h
other_rows-append k v ((j, w) ∷ before) after (here, h) =
    ap
      (λ b.
        if b
        then other_rows k (before ++ (k, v) ∷ after)
        else (j, w) ∷ other_rows k (before ++ (k, v) ∷ after))
      here
    ∙ ap (λ rest. (j, w) ∷ rest) (other_rows-append k v before after h)

Lacks-there : (k v : Bytes) (before after : List Row) → ¬ Lacks k (before ++ (k, v) ∷ after)
Lacks-there k v [] after (here, h) = absurd (ground (arith, here, equal_self k))
Lacks-there k v (r ∷ before) after (here, h) = Lacks-there k v before after h

module _ (st : Store) (utils : Utils) (concats : Concats utils) (numbers : ConcatsUint64 utils)
    (rows : st.Txn → List Row) (keys : IteratesKeys st rows) (writes : Writes st rows)
    (deletes : Deletes st rows) (i : Table) (pk : Bytes) where
  -- A write and a delete of a key that no row has leave the rows as they were.
  delete-set :
      (t t' t'' : st.Txn) (k v : Bytes)
      → Lacks k (rows t)
      → st.set t k v ≡ ok t'
      → st.delete t' k ≡ ok t''
      → rows t'' ≡ rows t
  delete-set t t' t'' k v lacks set deleted =
      let (before, after, now, was) = writes.set t t' k v set in
      elim was [
        | inl e ↦
            deletes.delete t' t'' k deleted
            ∙ ap (other_rows k) now
            ∙ other_rows-append k v before after (subst (Lacks k) e lacks)
            ∙ sym e
        | inr (old, e) ↦ absurd (Lacks-there k old before after (subst (Lacks k) e lacks))
      ]

  -- Where every key under `pk` ends in a number, and no row is that of the item: after `Add` and `Delete` of the item
  -- `List` visits what it did before.
  pub delete-add :
      {S : Type 0} (t t' t'' : st.Txn) (item : ℕ) (fn : ℕ → S → Outcome Error (Bool × S)) (s : S)
      → Long i.table_id pk (rows t)
      → Lacks (i.table_id ++ (pk ++ uint64_to_bytes item)) (rows t)
      → OneToManyUint64.add st utils i t pk item ≡ ok t'
      → OneToManyUint64.delete st utils i t' pk item ≡ ok t''
      → OneToManyUint64.list st utils i t'' pk fn s ≡ OneToManyUint64.list st utils i t pk fn s
  unfolding OneToManyUint64.add OneToManyUint64.delete Table.set Table.delete
  delete-add t t' t'' item fn s long lacks added deleted =
      let key = item_key st utils concats numbers rows keys writes i pk item in
      let same : rows t'' ≡ rows t =
        delete-set t t' t'' (i.table_id ++ (pk ++ uint64_to_bytes item)) [] lacks
          (subst (λ k. st.set t k [] ≡ ok t') key added)
          (subst (λ k. st.delete t' k ≡ ok t'') key deleted) in
      list-items st utils concats numbers rows keys writes i pk t'' fn s
        (subst (Long i.table_id pk) (sym same) long)
      ∙ ap (λ r. visit_items fn (items i.table_id pk r) s) same
      ∙ sym (list-items st utils concats numbers rows keys writes i pk t fn s long)
