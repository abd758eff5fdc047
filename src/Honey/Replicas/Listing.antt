-- ===== src/Honey/Replicas/Listing.antt =====
-- honey/replica_prefix.go: what `AllPrefixes` lists.
mod Runs
use yellowstone_common.Common.{
  ◌≡◌, ◌≢◌, ◌↔◌, ◌⊎◌, inl, inr, refl, sym, ap, ◌≤◌, ◌∙◌, subst, arith, Bool, true, false, length,
  drop, List, [], ◌∷◌, ◌++◌, Bytes, Bool-cases, drop_front,
}
use yellowstone_common.Common.Compare.{has_prefix, has_prefix-append}
use yellowstone_common.Common.Outcome.{Outcome, ok, err}
use yellowstone_common.Honey.Store
use yellowstone_common.Honey.Store.{Store, Row, visit, go_on}
use yellowstone_common.Honey.Table.{slice_from}
use yellowstone_common.Honey.Table.Laws.{Iterates, under}
use yellowstone_common.Honey.Replicas.{
  assignment_key, category_key, category_assignments, collect_prefix, all_prefixes,
}

-- The row is one of the rows.
abbrev pub Listed : List Row → Bytes → Bytes → Type 0
Listed [] k v = ⊥
Listed ((j, w) ∷ rows) k v = ((j ≡ k) × (w ≡ v)) ⊎ Listed rows k v

-- The rows are those that `Get` reads.
pub record Reads (st : Store) (rows : st.Txn → List Row) (t : st.Txn) : Type 0 where
  pub get : (k v : Bytes) → (st.get t k ≡ ok v) ↔ Listed (rows t) k v

has_prefix_split : (k p : Bytes) → has_prefix k p ≡ true → k ≡ p ++ drop (length p) k
has_prefix_split k [] e = refl
has_prefix_split [] (b ∷ p) e = absurd (ground (arith, e))
has_prefix_split (a ∷ k) (b ∷ p) e = ground (arith, has_prefix_split k p)

abbrev category : Bytes
category = 0x00 ∷ 0x00 ∷ 0x01 ∷ []

has_prefix-length : (k p : Bytes) → has_prefix k p ≡ true → length p ≤ length k
has_prefix-length k [] e = omega arith
has_prefix-length [] (b ∷ p) e = absurd (ground (arith, e))
has_prefix-length (a ∷ k) (b ∷ p) e = ground (arith, has_prefix-length k p)

module _ (st : Store) where
  collect_prefix_lem :
      (k v : Bytes) (result : List Row)
      → 3 ≤ length k
      → collect_prefix st k v result ≡ ok (true, (drop 3 k, v) ∷ result)
  unfolding collect_prefix category_key slice_from
  collect_prefix_lem k v result h = ground arith

  -- The rows of the category, by the ids, onto those that are there.
  visit-collect_prefix :
      (rows acc : List Row)
      → (result : List Row) × (visit (collect_prefix st) (under category rows) acc ≡ ok result)
        × ((id v : Bytes) → Listed result id v ↔ (Listed rows (category ++ id) v ⊎ Listed acc id v))
  unfolding visit
  visit-collect_prefix [] acc =
      (acc, refl, λ id v. (inr, λ h. elim h [ inl no_one ↦ absurd no_one | inr x ↦ x ]))
  visit-collect_prefix ((k, w) ∷ rows) acc = elim (Bool-cases (has_prefix k category)) [
    | inl holds ↦
        let (result, run, listed) = visit-collect_prefix rows ((drop 3 k, w) ∷ acc) in
        (
          result,
          rw (holds, collect_prefix_lem k w acc (has_prefix-length k category holds)) run,
          λ id v. (
            λ h. elim ((listed id v).0 h) [
              | inl later ↦ inl (inr later)
              | inr now ↦ elim now [
                | inl (e, f) ↦
                    inl (inl (has_prefix_split k category holds ∙ ap (λ x. category ++ x) e, f))
                | inr before ↦ inr before
              ]
            ],
            λ h. (listed id v).1 (elim h [
              | inl row ↦ elim row [
                | inl (e, f) ↦ inr (inl (ap (drop 3) e, f))
                | inr later ↦ inl later
              ]
              | inr before ↦ inr (inr before)
            ]),
          ),
        )
    | inr fails ↦
        let (result, run, listed) = visit-collect_prefix rows acc in
        (
          result,
          rw fails run,
          λ id v. (
            λ h. elim ((listed id v).0 h) [ inl later ↦ inl (inr later) | inr before ↦ inr before ],
            λ h. (listed id v).1 (elim h [
              | inl row ↦ elim row [
                | inl (e, f) ↦ absurd (ground (arith, fails, ap (λ x. has_prefix x category) e))
                | inr later ↦ inl later
              ]
              | inr before ↦ inr before
            ]),
          ),
        )
  ]

  -- `AllPrefixes` succeeds, and lists exactly the ids that have a prefix in the store, with it.
  pub all_prefixes-assignment_key :
      (rows : st.Txn → List Row) (laws : Iterates st rows) (t : st.Txn)
      → Reads st rows t
      → (result : List Row) × (all_prefixes st t ≡ ok result)
        × ((id p : Bytes) → Listed result id p ↔ (st.get t (assignment_key id) ≡ ok p))
  unfolding all_prefixes assignment_key
  all_prefixes-assignment_key rows laws t reads =
      let (result, run, listed) = visit-collect_prefix (rows t) [] in
      (
        result,
        laws.each_prefix _ t category (collect_prefix st) [] ∙ run,
        λ id p. (
          λ h. elim ((listed id p).0 h) [
            | inl row ↦ (reads.get (category ++ id) p).1 row
            | inr no_one ↦ absurd no_one
          ],
          λ h. (listed id p).1 (inl ((reads.get (category ++ id) p).0 h)),
        ),
      )
