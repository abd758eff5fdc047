-- ===== src/Honey/Table/Lists.antt =====
-- honey/tables.go: `ListAll` of the tables, from the rows.
use yellowstone_common.Common.{◌≡◌, refl, sym, ap, ◌∙◌, true, map, List, [], ◌∷◌, ◌++◌, Bytes}
use mathlib.Core.List.{append-nil, append_assoc}
use yellowstone_common.Common.Outcome.{Outcome, ok, err, panic, ◌>>=◌}
use yellowstone_common.Honey.Store.{Error, Store, Row, visit, go_on}
use yellowstone_common.Honey.Table.{Utils, Concats, Table}
use yellowstone_common.Honey.Table.Pages.{decode_all, append_decoded}
use yellowstone_common.Honey.Table.Laws.{Iterates, entries, each_prefix-entries}
use yellowstone_common.Honey.Table.Binary

-- The values decoded so far, before those of the rest.
abbrev prepend : {A : Type 0} → List A → Outcome Error (List A) → Outcome Error (List A)
prepend items (ok rest) = ok (items ++ rest)
prepend items (err e) = err e
prepend items panic = panic

prepend-bind :
    {A : Type 0} (items : List A) (a : A) (m : Outcome Error (List A))
    → prepend (items ++ (a ∷ [])) m ≡ prepend items (m >>= λ rest. ok (a ∷ rest))
prepend-bind items a (ok rest) = ap ok (append_assoc items (a ∷ []) rest)
prepend-bind items a (err e) = refl
prepend-bind items a panic = refl

-- One row, from what its value decodes to and the rest.
decoded_row :
    {A : Type 0} (items : List A) (m : Outcome Error A) (rest : List A → Outcome Error (List A))
    → (values : Outcome Error (List A)) → ((xs : List A) → rest xs ≡ prepend xs values)
    → ((m >>= λ a. Outcome.ok (true, items ++ (a ∷ []))) >>= go_on rest)
      ≡ prepend items (m >>= λ a. values >>= λ xs. ok (a ∷ xs))
decoded_row items (ok a) rest values same = same (items ++ (a ∷ [])) ∙ prepend-bind items a values
decoded_row items (err e) rest values same = refl
decoded_row items panic rest values same = refl

decoded :
    {A : Type 0} (decode : Bytes → Outcome Error A) (rows : List Row) (items : List A)
    → visit (append_decoded decode) rows items
      ≡ prepend items (decode_all decode (map (λ r. r.1) rows))
unfolding visit
decoded decode [] items = ap ok (sym (append-nil items))
decoded decode ((k, v) ∷ rows) items =
    decoded_row items (decode v) (visit (append_decoded decode) rows)
      (decode_all decode (map (λ r. r.1) rows)) (decoded decode rows)

prepend-nil : {A : Type 0} (m : Outcome Error (List A)) → prepend [] m ≡ m
prepend-nil (ok xs) = refl
prepend-nil (err e) = refl
prepend-nil panic = refl

module _ (st : Store) (utils : Utils) (concats : Concats utils) where
  -- `ListAll` of a table of messages decodes the values of the table's rows under the prefix, in the store's
  -- order, and fails where one of them does not decode, with the error of the first.
  pub Binary-list_all :
      {U : Type 0} (marshal : U → Outcome Error Bytes) (unmarshal : Bytes → Outcome Error U)
      → (rows : st.Txn → List Row) (laws : Iterates st rows) (a : Table) (t : st.Txn)
        (prefix : Bytes)
      → Binary.list_all marshal unmarshal st utils a t prefix
        ≡ decode_all unmarshal (map (λ r. r.1) (entries (a.table_id) prefix (rows t)))
  unfolding Binary.list_all
  Binary-list_all marshal unmarshal rows laws a t prefix =
      each_prefix-entries st utils concats rows laws a t prefix (append_decoded unmarshal) []
      ∙ decoded unmarshal (entries (a.table_id) prefix (rows t)) []
      ∙ prepend-nil (decode_all unmarshal (map (λ r. r.1) (entries (a.table_id) prefix (rows t))))
