-- ===== src/Honey/Replicas/Assignments.antt =====
-- honey/replica_prefix.go: the prefixes that any sequence of calls gives.
use yellowstone_common.Common.{
  ℕ, ◌+◌, ◌≤◌, ◌≡◌, ◌↔◌, sym, ap, ◌∙◌, arith, List, [], ◌∷◌, Bytes, inl, inr, All, All-weaken,
}
use yellowstone_common.Common.Outcome.{Outcome, ok, err, panic, Outcome-cases}
use yellowstone_common.Honey.Store
use yellowstone_common.Honey.Store.{Store, Row, ReadsWrites}
use yellowstone_common.Honey.Replicas.{assignment_key, put_uint16, get_or_assign_prefix}
use yellowstone_common.Honey.Replicas.Laws.{get-get_or_assign_prefix, ok≡}
use yellowstone_common.Honey.Replicas.Listing.{Listed}
use yellowstone_common.Honey.Replicas.Unique.{IsValid, IsValid-get_or_assign_prefix, others_kept}

module _ (st : Store) (commit : st.Txn → Outcome Store.Error st.Txn) where
  -- Calls of `GetOrAssignPrefix` one after the other, and the ids with the prefixes that they give, the latest first. A call
  -- that fails leaves the store as it is.
  abbrev pub get_or_assign_prefixes : List Bytes → st.Txn → List Row → st.Txn × List Row
  get_or_assign_prefixes [] t given = (t, given)
  get_or_assign_prefixes (id ∷ ids) t given = elim (get_or_assign_prefix st commit t id) [
    | ok (t', p) ↦ get_or_assign_prefixes ids t' ((id, p) ∷ given)
    | err e ↦ get_or_assign_prefixes ids t given
    | panic ↦ get_or_assign_prefixes ids t given
  ]

module _ (st : Store) (laws : ReadsWrites st) (commit : st.Txn → Outcome Store.Error st.Txn)
    (commits : (t t' : st.Txn) (k : Bytes) → commit t ≡ ok t' → st.get t' k ≡ st.get t k) where
  -- The registry is valid, and holds the prefixes that were given.
  record Holds (t : st.Txn) (given : List Row) : Type 0 where
    assigned : ℕ
    valid : IsValid st t assigned
    held : All (λ r. st.get t (assignment_key r.0) ≡ ok r.1) given

  Holds-get_or_assign_prefix :
      (t t' : st.Txn) (id p : Bytes) (given : List Row)
      → Holds t given
      → get_or_assign_prefix st commit t id ≡ ok (t', p)
      → Holds t' ((id, p) ∷ given)
  Holds-get_or_assign_prefix t t' id p given h run =
      let held : All (λ r. st.get t' (assignment_key r.0) ≡ ok r.1) ((id, p) ∷ given) = (
        get-get_or_assign_prefix st laws commit commits t t' id p run,
        All-weaken _ _ given (λ r got. others_kept st laws commit commits t t' id p r.0 r.1 run got)
            h.held,
      ) in
      elim (IsValid-get_or_assign_prefix st laws commit commits t t' id p h.assigned h.valid run) [
        | inl valid ↦ record { assigned = h.assigned; valid = valid; held = held }
        | inr valid ↦ record { assigned = h.assigned + 1; valid = valid; held = held }
      ]

  Holds-get_or_assign_prefixes :
      (ids : List Bytes) (t : st.Txn) (given : List Row)
      → Holds t given
      → let (t', given') = get_or_assign_prefixes st commit ids t given in Holds t' given'
  Holds-get_or_assign_prefixes [] t given h = h
  Holds-get_or_assign_prefixes (id ∷ ids) t given h =
      elim (Outcome-cases (get_or_assign_prefix st commit t id)) [
        | inl ((t', p), run) ↦
            rw (run, get_or_assign_prefixes)
              (Holds-get_or_assign_prefixes ids t' ((id, p) ∷ given)
                (Holds-get_or_assign_prefix t t' id p given h run))
        | inr (inl (e, run)) ↦
            rw (run, get_or_assign_prefixes) (Holds-get_or_assign_prefixes ids t given h)
        | inr (inr run) ↦
            rw (run, get_or_assign_prefixes) (Holds-get_or_assign_prefixes ids t given h)
      ]

  All-Listed :
      (t : st.Txn) (given : List Row) (id p : Bytes)
      → All (λ r. st.get t (assignment_key r.0) ≡ ok r.1) given
      → Listed given id p
      → st.get t (assignment_key id) ≡ ok p
  All-Listed t [] id p h no_one = absurd no_one
  All-Listed t ((a, q) ∷ given) id p (here, h) (inl (same, e)) =
      ap (λ x. st.get t (assignment_key x)) (sym same) ∙ here ∙ ap ok e
  All-Listed t ((a, q) ∷ given) id p (here, h) (inr later) = All-Listed t given id p h later

  -- From a valid registry, on a store that reads its writes, after any calls of `GetOrAssignPrefix`, some of which may fail: every prefix that one of
  -- them gave is a number from 1 to 0xffff, and two of them gave the same prefix exactly if they are of the same id.
  pub Listed-get_or_assign_prefixes :
      (t : st.Txn) (n : ℕ) (ids : List Bytes)
      → IsValid st t n
      → let (t', given) = get_or_assign_prefixes st commit ids t [] in
        ((id p : Bytes) → Listed given id p → (m : ℕ) × (1 ≤ m) × (m ≤ 0xffff) × (p ≡ put_uint16 m))
        × ((a b p q : Bytes) → Listed given a p → Listed given b q → (a ≡ b) ↔ (p ≡ q))
  Listed-get_or_assign_prefixes t n ids valid =
      let (t', given) = get_or_assign_prefixes st commit ids t [] in
      let h =
        Holds-get_or_assign_prefixes ids t [] (record { assigned = n; valid = valid; held = tt }) in
      let got : (id p : Bytes) → Listed given id p → st.get t' (assignment_key id) ≡ ok p =
        λ id p listed. All-Listed t' given id p h.held listed in
      (
        λ id p listed.
            let (m, low, high, e) = h.valid.ranged id p (got id p listed) in
            let bound = h.valid.bound in (m, low, omega arith, e),
        λ a b p q la lb. (
          λ e. ok≡ _ (got a p la) (ap (λ x. st.get t' (assignment_key x)) e ∙ got b q lb),
          λ e. h.valid.distinct a b p (got a p la) (got b q lb ∙ ap ok (sym e)),
        ),
      )
