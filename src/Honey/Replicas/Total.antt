-- ===== src/Honey/Replicas/Total.antt =====
-- honey/replica_prefix.go: every outcome of a call on a store that works.
use yellowstone_common.Common.{
  ℕ, ◌+◌, ◌%◌, ◌^◌, ◌<◌, ◌≡◌, refl, sym, ◌∙◌, subst, arith, ltb, le→ltb, false, [], ◌∷◌, Bytes, ◌⊎◌,
  inl, inr,
}
use native.Mathlib.Decide.{dec_lt}
use yellowstone_common.Common.Outcome.{Outcome, ok, err}
use yellowstone_common.Honey.Store
use yellowstone_common.Honey.Store.{Store, not_found, ReadsWrites}
use yellowstone_common.Honey.Replicas.{
  assignment_key, counter_key, put_uint16, read_counter, assign, exhausted, empty_id, Error,
  get_or_assign_prefix,
}
use yellowstone_common.Honey.Replicas.Laws.{
  err≢ok, found_lem, get_or_assign_prefix-cases, get-get_or_assign_prefix,
}
use yellowstone_common.Honey.Replicas.Unique.{
  IsValid, IsValid-Assigned, empty_id_lem, get_or_assign_prefix-exhausted,
}

-- The operations of the store do not fail, but for a read of a key that is not there.
pub record Works (st : Store) (commit : st.Txn → Outcome Store.Error st.Txn) : Type 0 where
  pub gets :
      (t : st.Txn) (k : Bytes) → (st.get t k ≡ err not_found) ⊎ ((v : Bytes) × (st.get t k ≡ ok v))
  pub sets : (t : st.Txn) (k v : Bytes) → (t' : st.Txn) × (st.set t k v ≡ ok t')
  pub commits : (t : st.Txn) → (t' : st.Txn) × (commit t ≡ ok t')

-- What a call for `id` comes to, where the counter reads `n`.
pub data Called (st : Store) (t : st.Txn) (n : ℕ) (id : Bytes)
    : Outcome Error (st.Txn × Bytes) → Type 0 where
  found : (p : Bytes) → st.get t (assignment_key id) ≡ ok p → Called st t n id (ok (t, p))
  next :
      (t' : st.Txn)
      → st.get t (assignment_key id) ≡ err not_found
      → n < 0xffff
      → IsValid st t' (n + 1)
      → st.get t' (assignment_key id) ≡ ok (put_uint16 (n + 1))
      → Called st t n id (ok (t', put_uint16 (n + 1)))
  full :
      st.get t (assignment_key id) ≡ err not_found → n ≡ 0xffff → Called st t n id (err exhausted)
  no_id : id ≡ [] → Called st t n id (err empty_id)

module _ (st : Store) (commit : st.Txn → Outcome Store.Error st.Txn) (works : Works st commit) where
  assign_room :
      (t : st.Txn) (id : Bytes) (n : ℕ)
      → read_counter st t ≡ ok n
      → n < 0xffff
      → (t' : st.Txn) × (assign st commit t id ≡ ok (t', put_uint16 (n + 1)))
  unfolding assign
  assign_room t id n counted room =
      let prefix = put_uint16 (n + 1) in
      let (t1, e1) = works.sets t (assignment_key id) prefix in
      let (t2, e2) = works.sets t1 counter_key prefix in
      let (t3, e3) = works.commits t2 in
      let fits : ltb 0xffff (n + 1) ≡ false = le→ltb 0xffff (n + 1) (omega arith) in
      let wraps : (n + 1) % 2 ^ 16 ≡ n + 1 = omega arith in
      (t3, rw (counted, fits, wraps, e1, e2, e3) refl)

module _ (st : Store) (laws : ReadsWrites st) (commit : st.Txn → Outcome Store.Error st.Txn)
    (commits : (t t' : st.Txn) (k : Bytes) → commit t ≡ ok t' → st.get t' k ≡ st.get t k)
    (works : Works st commit) where
  missing_lem :
      (t : st.Txn) (c : ℕ) (cs : Bytes)
      → st.get t (assignment_key (c ∷ cs)) ≡ err not_found
      → get_or_assign_prefix st commit t (c ∷ cs) ≡ assign st commit t (c ∷ cs)
  unfolding get_or_assign_prefix
  missing_lem t c cs missing = rw missing refl

  Called-next :
      (t t' : st.Txn) (id p : Bytes) (n : ℕ)
      → IsValid st t n
      → st.get t (assignment_key id) ≡ err not_found
      → get_or_assign_prefix st commit t id ≡ ok (t', p)
      → IsValid st t' (n + 1)
  Called-next t t' id p n valid missing run =
      elim (get_or_assign_prefix-cases st laws commit commits t t' id p run) [
        | inl (same, there) ↦ absurd (err≢ok _ missing there)
        | inr (absent, new) ↦ IsValid-Assigned st laws commit commits t t' id p n valid new
      ]

  -- From a valid registry, on a store that reads its writes and whose operations do not fail: `GetOrAssignPrefix` for
  -- an id that has a prefix gives it and changes nothing; for a new one it gives the number after the counter, which
  -- the store then holds for that id, and leaves a valid registry, or fails where the counter is at 0xffff; and it
  -- fails for the empty id.
  pub get_or_assign_prefix_total :
      (t : st.Txn) (n : ℕ) (id : Bytes)
      → IsValid st t n
      → Called st t n id (get_or_assign_prefix st commit t id)
  get_or_assign_prefix_total t n [] valid =
      subst (Called st t n []) (sym (empty_id_lem st commit t)) (no_id refl)
  get_or_assign_prefix_total t n (c ∷ cs) valid =
      let id = c ∷ cs in
      elim (works.gets t (assignment_key id)) [
        | inr (p, there) ↦
            subst (Called st t n id) (sym (found_lem st laws commit commits t c cs p there))
              (found p there)
        | inl missing ↦ elim (dec_lt n 0xffff) [
          | yes room ↦
              let (t', run) = assign_room st commit works t id n valid.counted room in
              let call = missing_lem t c cs missing ∙ run in
              subst (Called st t n id) (sym call) (
                next t' missing room (Called-next t t' id (put_uint16 (n + 1)) n valid missing call)
                  (get-get_or_assign_prefix st laws commit commits t t' id (put_uint16 (n + 1))
                    call))
          | no none_left ↦
              let bound = valid.bound in
              subst (Called st t n id)
                (sym (
                  get_or_assign_prefix-exhausted st laws commit commits t c cs n valid.counted
                    (omega arith) missing))
                (full missing (omega arith))
        ]
      ]
