-- ===== src/Honey/Replicas/Runs.antt =====
-- The registry on the store in memory, and its theorems at concrete inputs.
use yellowstone_common.Common.{
  Bool-cases, ◌⊎◌, inl, inr, ℕ, ◌≤◌, ◌↔◌, ◌≡◌, refl, arith, List, [], ◌∷◌, Bytes,
}
use yellowstone_common.Common.Outcome.{ok, err}
use yellowstone_common.Honey.Store.{Row, not_found}
use yellowstone_common.Honey.Replicas.{
  assignment_key, category_key, counter_key, put_uint16, uint16, read_counter, assign,
  get_or_assign_prefix, exhausted,
}
use yellowstone_common.Common.Compare.{equal}
use yellowstone_common.Honey.Replicas.Total.{Works, Called, get_or_assign_prefix_total}
use yellowstone_common.Honey.Replicas.Listing.{Listed}
use yellowstone_common.Honey.Replicas.Assignments.{
  get_or_assign_prefixes, Listed-get_or_assign_prefixes,
}
use yellowstone_common.Honey.Replicas.Unique.{IsValid}
use yellowstone_common.Honey.Memory.{look, memory, memory_laws, succeed, commits}

-- The replicas 7 and 8, in this order, get the numbers 1 and 2.
abbrev after_7 : List Row
after_7 = (0 ∷ 0 ∷ 2 ∷ [], 0 ∷ 1 ∷ []) ∷ (0 ∷ 0 ∷ 1 ∷ 7 ∷ [], 0 ∷ 1 ∷ []) ∷ []

abbrev after_8 : List Row
after_8 = (0 ∷ 0 ∷ 2 ∷ [], 0 ∷ 2 ∷ []) ∷ (0 ∷ 0 ∷ 1 ∷ 8 ∷ [], 0 ∷ 2 ∷ []) ∷ after_7

call_7 : get_or_assign_prefix memory succeed [] (7 ∷ []) ≡ ok (after_7, 0 ∷ 1 ∷ [])
unfolding get_or_assign_prefix assign read_counter assignment_key counter_key category_key
    put_uint16 uint16
call_7 = refl

call_8 : get_or_assign_prefix memory succeed after_7 (8 ∷ []) ≡ ok (after_8, 0 ∷ 2 ∷ [])
unfolding get_or_assign_prefix assign read_counter assignment_key counter_key category_key
    put_uint16 uint16
call_8 = refl

empty_IsValid : IsValid memory [] 0
unfolding read_counter
empty_IsValid = record {
  counted = refl;
  bound = omega arith;
  ranged = λ id p e. absurd (cc e);
  distinct = λ a b p e e'. absurd (cc e);
}

abbrev prefix_7 : Bytes
prefix_7 = 0 ∷ 1 ∷ []

abbrev prefix_8 : Bytes
prefix_8 = 0 ∷ 2 ∷ []

found_7 : look after_7 (assignment_key (7 ∷ [])) ≡ ok (0 ∷ 1 ∷ [])
unfolding assignment_key category_key
found_7 = refl

abbrev full : List Row
full = (0 ∷ 0 ∷ 2 ∷ [], 255 ∷ 255 ∷ []) ∷ []

refused : get_or_assign_prefix memory succeed full (7 ∷ []) ≡ err exhausted
unfolding get_or_assign_prefix assign read_counter assignment_key counter_key category_key
    put_uint16 uint16
refused = refl

-- The replicas 7, 8, one with no name, and 7 again.
abbrev callers : List Bytes
callers = (7 ∷ []) ∷ (8 ∷ []) ∷ [] ∷ (7 ∷ []) ∷ []

abbrev given : List Row
given = (7 ∷ [], 0 ∷ 1 ∷ []) ∷ (8 ∷ [], 0 ∷ 2 ∷ []) ∷ (7 ∷ [], 0 ∷ 1 ∷ []) ∷ []

called : get_or_assign_prefixes memory succeed callers [] [] ≡ (after_8, given)
unfolding get_or_assign_prefix assign read_counter assignment_key counter_key category_key
    put_uint16 uint16
called = refl

Listed-get_or_assign_prefixes_example :
    ((id p : Bytes)
      → Listed (get_or_assign_prefixes memory succeed callers [] []).1 id p
      → (m : ℕ) × (1 ≤ m) × (m ≤ 0xffff) × (p ≡ put_uint16 m))
    × ((a b p q : Bytes)
        → Listed (get_or_assign_prefixes memory succeed callers [] []).1 a p
        → Listed (get_or_assign_prefixes memory succeed callers [] []).1 b q
        → (a ≡ b) ↔ (p ≡ q))
Listed-get_or_assign_prefixes_example =
    Listed-get_or_assign_prefixes memory memory_laws succeed commits [] 0 callers empty_IsValid

look-cases :
    (rows : List Row) (k : Bytes)
    → (look rows k ≡ err not_found) ⊎ ((v : Bytes) × (look rows k ≡ ok v))
look-cases [] k = inl refl
look-cases ((j, w) ∷ rows) k = elim (Bool-cases (equal k j)) [
  | inl same ↦ inr (w, rw same refl)
  | inr other ↦ rw other (look-cases rows k)
]

memory-Works : Works memory succeed
memory-Works = record {
  gets = look-cases;
  sets = λ t k v. ((k, v) ∷ t, refl);
  commits = λ t. (t, refl);
}

get_or_assign_prefix_total_example :
    Called memory [] 0 (7 ∷ []) (get_or_assign_prefix memory succeed [] (7 ∷ []))
get_or_assign_prefix_total_example =
    get_or_assign_prefix_total memory memory_laws succeed commits memory-Works [] 0 (7 ∷ [])
      empty_IsValid
