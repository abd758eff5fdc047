-- ===== src/Honey/Replicas/Unique.antt =====
-- honey/replica_prefix.go: the registry over several calls and ids.
use yellowstone_common.Common.{
  ℕ, ◌+◌, ◌≤◌, ◌≡◌, ◌≢◌, refl, sym, ap, subst, ◌∙◌, arith, [], ◌∷◌, Bytes, ◌⊎◌, inl, inr,
}
use mathlib.Core.List.{List-discrete}
use native.Mathlib.Decide.{ℕ_discrete}
use yellowstone_common.Common.Outcome.{Outcome, ok, err, or_panic}
use yellowstone_common.Honey.Store
use yellowstone_common.Honey.Store.{Store, not_found, ReadsWrites}
use yellowstone_common.Honey.Replicas.{
  assignment_key, counter_key, put_uint16, uint16, read_counter, exhausted, empty_id,
  get_or_assign_prefix,
}
use yellowstone_common.Honey.Replicas.Laws.{
  Assigned, assign_exhausted, assignment-injective, assignment-ne-counter, uint16-put_uint16,
  put_uint16-injective, get_or_assign_prefix-cases, get-get_or_assign_prefix, found_lem, err≢ok,
  ok≡,
}

-- The counter reads `n`; the ids have prefixes from 1 to `n`, and no two of them the same.
pub record IsValid (st : Store) (t : st.Txn) (n : ℕ) : Type 0 where
  pub counted : read_counter st t ≡ ok n
  pub bound : n ≤ 0xffff
  pub ranged :
      (id p : Bytes)
      → st.get t (assignment_key id) ≡ ok p
      → (m : ℕ) × (1 ≤ m) × (m ≤ n) × (p ≡ put_uint16 m)
  pub distinct :
      (a b p : Bytes)
      → st.get t (assignment_key a) ≡ ok p
      → st.get t (assignment_key b) ≡ ok p
      → a ≡ b

same_bytes : (a b : Bytes) → Dec (a ≡ b)
same_bytes = List-discrete ℕ_discrete

pub empty_id_lem :
    (st : Store) (commit : st.Txn → Outcome Store.Error st.Txn) (t : st.Txn)
    → get_or_assign_prefix st commit t [] ≡ err empty_id
unfolding get_or_assign_prefix
empty_id_lem st commit t = refl

read_counter-ok :
    (st : Store) (t : st.Txn) (v : Bytes)
    → st.get t counter_key ≡ ok v
    → read_counter st t ≡ or_panic (uint16 v)
unfolding read_counter
read_counter-ok st t v h = rw (h, read_counter)

module _ (st : Store) (laws : ReadsWrites st) (commit : st.Txn → Outcome Store.Error st.Txn)
    (commits : (t t' : st.Txn) (k : Bytes) → commit t ≡ ok t' → st.get t' k ≡ st.get t k) where
  -- Two calls for the same id give the same prefix, and the second changes nothing.
  pub again :
      (t t' : st.Txn) (id p : Bytes)
      → get_or_assign_prefix st commit t id ≡ ok (t', p)
      → get_or_assign_prefix st commit t' id ≡ ok (t', p)
  again t t' [] p h = absurd (err≢ok _ (empty_id_lem st commit t) h)
  again t t' (c ∷ cs) p h =
      let id = c ∷ cs in
      found_lem st laws commit commits t' c cs p
        (get-get_or_assign_prefix st laws commit commits t t' id p h)

  kept :
      (t t' : st.Txn) (id p : Bytes) (new : Assigned st laws commit commits t t' id p) (a q : Bytes)
      → a ≢ id
      → st.get t' (assignment_key a) ≡ ok q
      → st.get t (assignment_key a) ≡ ok q
  kept t t' id p new a q ne got =
      sym (
        new.rest (assignment_key a) (λ e. ne (assignment-injective a id e))
          (assignment-ne-counter a))
      ∙ got

  -- A prefix in the store is not the next one.
  fresh :
      (t t' : st.Txn) (id p : Bytes) (n : ℕ)
      → IsValid st t n
      → (new : Assigned st laws commit commits t t' id p) → (a : Bytes)
      → st.get t (assignment_key a) ≢ ok p
  fresh t t' id p n valid new a got =
      let (m, low, high, e) = valid.ranged a p got in
      let last : new.last ≡ n = ok≡ _ new.counted valid.counted in
      let room = new.room in
      let same : m ≡ new.last + 1 =
        put_uint16-injective m (new.last + 1) (omega arith) (omega arith) (sym e ∙ new.prefix) in
      omega arith

  clash :
      (t t' : st.Txn) (id p : Bytes) (n : ℕ)
      → IsValid st t n
      → Assigned st laws commit commits t t' id p
      → (a b q : Bytes) → a ≡ id
      → b ≢ id
      → st.get t' (assignment_key a) ≡ ok q
      → st.get t' (assignment_key b) ≢ ok q
  clash t t' id p n valid new a b q ea ne ga gb =
      let q≡p : q ≡ p =
        ok≡ _ (subst (λ x. st.get t' (assignment_key x) ≡ ok q) ea ga) new.written in
      fresh t t' id p n valid new b (kept t t' id p new b p ne (gb ∙ ap ok q≡p))

  pub IsValid-Assigned :
      (t t' : st.Txn) (id p : Bytes) (n : ℕ)
      → IsValid st t n
      → Assigned st laws commit commits t t' id p
      → IsValid st t' (n + 1)
  IsValid-Assigned t t' id p n valid new =
      let last : new.last ≡ n = ok≡ _ new.counted valid.counted in
      let room = new.room in
      let bound : n + 1 ≤ 0xffff = omega arith in
      let prefix : p ≡ put_uint16 (n + 1) = new.prefix ∙ ap (λ k. put_uint16 (k + 1)) last in
      let counted : read_counter st t' ≡ ok (n + 1) =
        read_counter-ok st t' p (new.counter)
        ∙ (ap or_panic (ap uint16 prefix ∙ uint16-put_uint16 (n + 1) bound)) in
      record {
        counted = counted;
        bound = bound;
        ranged = λ a q got. elim (same_bytes a id) [
          | yes e ↦
              let q≡p : p ≡ q =
                ok≡ _ new.written (subst (λ x. st.get t' (assignment_key x) ≡ ok q) e got) in
              (n + 1, omega arith, omega arith, sym q≡p ∙ prefix)
          | no ne ↦
              let (m, low, high, e) = valid.ranged a q (kept t t' id p new a q ne got) in
              (m, low, omega arith, e)
        ];
        distinct = λ a b q ga gb. elim (same_bytes a id) [
          | yes ea ↦ elim (same_bytes b id) [
            | yes eb ↦ ea ∙ sym eb
            | no ne ↦ absurd (clash t t' id p n valid new a b q ea ne ga gb)
          ]
          | no ne ↦ elim (same_bytes b id) [
            | yes eb ↦ absurd (clash t t' id p n valid new b a q eb ne gb ga)
            | no ne' ↦
                valid.distinct a b q (kept t t' id p new a q ne ga) (kept t t' id p new b q ne' gb)
          ]
        ];
      }

  -- The call keeps the registry valid: it leaves the counter as it is or adds one to it.
  pub IsValid-get_or_assign_prefix :
      (t t' : st.Txn) (id p : Bytes) (n : ℕ)
      → IsValid st t n
      → get_or_assign_prefix st commit t id ≡ ok (t', p)
      → IsValid st t' n ⊎ IsValid st t' (n + 1)
  IsValid-get_or_assign_prefix t t' id p n valid h =
      elim (get_or_assign_prefix-cases st laws commit commits t t' id p h) [
        | inl (same, found) ↦ inl (subst (λ x. IsValid st x n) same valid)
        | inr (missing, new) ↦ inr (IsValid-Assigned t t' id p n valid new)
      ]

  -- A prefix once given stays: no later call, for whatever id, changes what the store holds for `a`.
  pub others_kept :
      (t t' : st.Txn) (id p a q : Bytes)
      → get_or_assign_prefix st commit t id ≡ ok (t', p)
      → st.get t (assignment_key a) ≡ ok q
      → st.get t' (assignment_key a) ≡ ok q
  others_kept t t' id p a q h got =
      elim (get_or_assign_prefix-cases st laws commit commits t t' id p h) [
        | inl (same, found) ↦ subst (λ x. st.get x (assignment_key a) ≡ ok q) same got
        | inr (missing, new) ↦
            new.rest (assignment_key a)
              (λ e. err≢ok _ (subst (λ x. st.get t x ≡ err not_found) (sym e) missing) got)
              (assignment-ne-counter a)
            ∙ got
      ]

  apart_in :
      (u v : st.Txn) (a b p q : Bytes) (n : ℕ)
      → IsValid st u n
      → get_or_assign_prefix st commit u b ≡ ok (v, q)
      → st.get v (assignment_key a) ≡ ok p
      → st.get v (assignment_key b) ≡ ok p
      → a ≡ b
  apart_in u v a b p q n valid h ga gb = elim (IsValid-get_or_assign_prefix u v b q n valid h) [
    | inl valid' ↦ valid'.distinct a b p ga gb
    | inr valid' ↦ valid'.distinct a b p ga gb
  ]

  -- From a valid registry, calls for two different ids, one after the other, give different prefixes.
  pub apart :
      (t u v : st.Txn) (a b p q : Bytes) (n : ℕ)
      → IsValid st t n
      → a ≢ b
      → get_or_assign_prefix st commit t a ≡ ok (u, p)
      → get_or_assign_prefix st commit u b ≡ ok (v, q)
      → p ≢ q
  apart t u v a b p q n valid ne ha hb e =
      let got = get-get_or_assign_prefix st laws commit commits in
      let ga = others_kept u v b q a p hb (got t u a p ha) in
      let gb = got u v b q hb ∙ ap ok (sym e) in
      elim (IsValid-get_or_assign_prefix t u a p n valid ha) [
        | inl valid' ↦ ne (apart_in u v a b p q n valid' hb ga gb)
        | inr valid' ↦ ne (apart_in u v a b p q (n + 1) valid' hb ga gb)
      ]

  -- Where the counter reads 0xffff or more, a call for a new id that is not empty fails with the error
  -- that the prefixes are exhausted.
  pub get_or_assign_prefix-exhausted :
      (t : st.Txn) (c : ℕ) (cs : Bytes) (n : ℕ)
      → read_counter st t ≡ ok n
      → 0xffff ≤ n
      → st.get t (assignment_key (c ∷ cs)) ≡ err not_found
      → get_or_assign_prefix st commit t (c ∷ cs) ≡ err exhausted
  unfolding get_or_assign_prefix
  get_or_assign_prefix-exhausted t c cs n counted full missing =
      rw missing (assign_exhausted st laws commit commits t (c ∷ cs) n counted full)
