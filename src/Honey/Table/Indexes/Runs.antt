-- ===== src/Honey/Table/Indexes/Runs.antt =====
-- An index of numbers on the store in memory.
use yellowstone_common.Common.{
  ℕ, ◌≡◌, ◌⊎◌, inl, refl, sym, arith, true, Bool, List, [], ◌∷◌, ◌++◌, ◌∙◌, Bytes,
}
use yellowstone_common.Common.Outcome.{Outcome, ok}
use yellowstone_common.Honey.Store.{Row, Error}
use yellowstone_common.Honey.Memory.{memory, without, written}
use yellowstone_common.Honey.Table.Indexes.Deletes.{other_rows, Deletes, Lacks, delete-add}
use yellowstone_common.Honey.Table
use yellowstone_common.Honey.Table.{get_full_key}
use yellowstone_common.Honey.Table.Runs.{utils, utils-Concats, users}
use yellowstone_common.Honey.Table.Uint64.{uint64_to_bytes}
use yellowstone_common.Honey.Table.OneToManyUint64
use yellowstone_common.Honey.Table.Indexes.{
  ConcatsUint64, IteratesKeys, Writes, visit_items, list-add,
}

utils-ConcatsUint64 : ConcatsUint64 utils
utils-ConcatsUint64 = record { uint64 = λ a u. refl }

memory_IteratesKeys : IteratesKeys memory (λ t. t)
memory_IteratesKeys = record { each_prefix_keys = λ S t p f s. refl }

memory_Writes : Writes memory (λ t. t)
memory_Writes = record { set = λ t t' k v e. ([], t, sym (written ((k, v) ∷ t) t' e), inl refl) }

-- The index holds 7 under the key 5.
abbrev seven : List Row
seven = (1 ∷ 1 ∷ 5 ∷ 0 ∷ 0 ∷ 0 ∷ 0 ∷ 0 ∷ 0 ∷ 0 ∷ 7 ∷ [], []) ∷ []

abbrev seven_nine : List Row
seven_nine = (1 ∷ 1 ∷ 5 ∷ 0 ∷ 0 ∷ 0 ∷ 0 ∷ 0 ∷ 0 ∷ 0 ∷ 9 ∷ [], []) ∷ seven

added_nine : OneToManyUint64.add memory utils users seven (5 ∷ []) 9 ≡ ok seven_nine
unfolding OneToManyUint64.add uint64_to_bytes Table.set get_full_key
added_nine = refl

abbrev gather : ℕ → List ℕ → Outcome Error (Bool × List ℕ)
gather u us = ok (true, us ++ (u ∷ []))

list-add_example :
    (xs : List ℕ) × (ys : List ℕ) × (OneToManyUint64.list memory utils users seven_nine
        (5 ∷ [])
        gather
        []
      ≡ visit_items gather (xs ++ 9 ∷ ys) [])
    × ((OneToManyUint64.list memory utils users seven (5 ∷ []) gather []
          ≡ visit_items gather (xs ++ ys) [])
        ⊎ (OneToManyUint64.list memory utils users seven (5 ∷ []) gather []
            ≡ visit_items gather (xs ++ 9 ∷ ys) []))
list-add_example =
    list-add memory utils utils-Concats utils-ConcatsUint64 (λ t. t) memory_IteratesKeys
      memory_Writes users (5 ∷ []) seven seven_nine 9 gather [] (omega arith) (omega arith)
      added_nine

without-other_rows : (k : Bytes) (rows : List Row) → without k rows ≡ other_rows k rows
without-other_rows k [] = refl
without-other_rows k ((j, v) ∷ rows) = ground (arith, without-other_rows k rows)

memory_Deletes : Deletes memory (λ t. t)
memory_Deletes = record {
  delete = λ t t' k e. sym (written (without k t) t' e) ∙ without-other_rows k t;
}

deleted_nine : OneToManyUint64.delete memory utils users seven_nine (5 ∷ []) 9 ≡ ok seven
unfolding OneToManyUint64.delete uint64_to_bytes Table.delete get_full_key
deleted_nine = refl

nine_absent : Lacks (1 ∷ 1 ∷ (5 ∷ uint64_to_bytes 9)) seven
unfolding uint64_to_bytes
nine_absent = (refl, tt)

delete-add_example :
    OneToManyUint64.list memory utils users seven (5 ∷ []) gather []
    ≡ OneToManyUint64.list memory utils users seven (5 ∷ []) gather []
delete-add_example =
    delete-add memory utils utils-Concats utils-ConcatsUint64 (λ t. t) memory_IteratesKeys
      memory_Writes memory_Deletes users (5 ∷ []) seven seven_nine seven 9 gather [] (omega arith)
      nine_absent added_nine deleted_nine
