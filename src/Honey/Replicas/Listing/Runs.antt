-- ===== src/Honey/Replicas/Listing/Runs.antt =====
-- `AllPrefixes` on the store in memory.
use yellowstone_common.Common.{
  ◌≡◌, ◌↔◌, inl, inr, sym, subst, arith, Bool-cases, List, [], ◌∷◌, Bytes,
}
use yellowstone_common.Common.Compare.{equal, equal→≡, equal_self}
use yellowstone_common.Common.Outcome.{ok}
use yellowstone_common.Honey.Store.{Row}
use yellowstone_common.Honey.Replicas.{all_prefixes, assignment_key}
use yellowstone_common.Honey.Replicas.Listing.{Listed, Reads, all_prefixes-assignment_key}
use yellowstone_common.Honey.Memory.{look, memory, memory_Iterates}

-- No two rows have the same key.
abbrev Apart : List Row → Type 0
Apart [] = Unit
Apart ((j, w) ∷ rows) = ((v : Bytes) → ¬ Listed rows j v) × Apart rows

look→Listed : (rows : List Row) (k v : Bytes) → look rows k ≡ ok v → Listed rows k v
look→Listed [] k v e = absurd (cc e)
look→Listed ((j, w) ∷ rows) k v e = elim (Bool-cases (equal k j)) [
  | inl same ↦ inl (sym (equal→≡ k j same), ground (arith, same, e))
  | inr other ↦ inr (look→Listed rows k v (ground (arith, other, e)))
]

Listed→look : (rows : List Row) (k v : Bytes) → Apart rows → Listed rows k v → look rows k ≡ ok v
Listed→look [] k v h no_one = absurd no_one
Listed→look ((j, w) ∷ rows) k v (other, h) (inl (same, e)) = ground (arith, same, e, equal_self k)
Listed→look ((j, w) ∷ rows) k v (other, h) (inr later) = elim (Bool-cases (equal k j)) [
  | inl same ↦ absurd (other v (subst (λ x. Listed rows x v) (equal→≡ k j same) later))
  | inr apart ↦ ground (arith, apart, Listed→look rows k v h later)
]

-- The replicas 7 and 8 have the prefixes 1 and 2.
abbrev rows : List Row
rows =
    (0 ∷ 0 ∷ 2 ∷ [], 0 ∷ 2 ∷ [])
    ∷ (0 ∷ 0 ∷ 1 ∷ 8 ∷ [], 0 ∷ 2 ∷ [])
    ∷ (0 ∷ 0 ∷ 1 ∷ 7 ∷ [], 0 ∷ 1 ∷ [])
    ∷ []

rows_Apart : Apart rows
rows_Apart = (
  λ v h. elim h [
    | inl (e, f) ↦ ground arith
    | inr later ↦ elim later [ inl (e, f) ↦ ground arith | inr no_one ↦ absurd no_one ]
  ],
  (
    λ v h. elim h [ inl (e, f) ↦ ground arith | inr no_one ↦ absurd no_one ],
    (λ v no_one. absurd no_one, tt),
  ),
)

rows_Reads : Reads memory (λ t. t) rows
rows_Reads = record { get = λ k v. (look→Listed rows k v, Listed→look rows k v rows_Apart) }

all_prefixes-assignment_key_example :
    (result : List Row) × (all_prefixes memory rows ≡ ok result)
    × ((id p : Bytes) → Listed result id p ↔ (look rows (assignment_key id) ≡ ok p))
all_prefixes-assignment_key_example =
    all_prefixes-assignment_key memory (λ t. t) memory_Iterates rows rows_Reads
