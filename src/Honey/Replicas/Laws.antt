-- ===== src/Honey/Replicas/Laws.antt =====
-- honey/replica_prefix.go: the store before and after a call of `GetOrAssignPrefix`.
use yellowstone_common.Common.{
  ℕ, ◌+◌, ◌%◌, ◌^◌, ◌≤◌, ◌<◌, ◌≡◌, ◌≢◌, refl, sym, ap, subst, ◌∙◌, arith, ltb, some, [], ◌∷◌, Bytes,
  true, false, lt→ltb, le→ltb, ◌⊎◌, inl, inr,
}
use yellowstone_common.Common.Outcome.{Outcome, ok, err, panic, >>=-eq-ok, Outcome-cases}
use yellowstone_common.Honey.Store
use yellowstone_common.Honey.Store.{Store, not_found, ReadsWrites}
use yellowstone_common.Honey.Replicas.{
  Error, assignment_key, counter_key, put_uint16, uint16, wrap, read_counter, assign, exhausted,
  get_or_assign_prefix, writing_prefix, writing_counter, committing,
}
use native.Mathlib.Decide.{dec_lt}

pub assignment-ne-counter : (id : Bytes) → assignment_key id ≢ counter_key
unfolding assignment_key counter_key
assignment-ne-counter id e = ground arith

pub assignment-injective : (a b : Bytes) → assignment_key a ≡ assignment_key b → a ≡ b
unfolding assignment_key
assignment-injective a b e = ground arith

pub uint16-put_uint16 : (n : ℕ) → n ≤ 0xffff → uint16 (put_uint16 n) ≡ some n
unfolding uint16 put_uint16
uint16-put_uint16 n h = ap some (omega arith)

wrap-eq-ok {ℓ} : {E F A : Type ℓ} (f : E → F) (m : Outcome E A) {a : A} → wrap f m ≡ ok a → m ≡ ok a
wrap-eq-ok f (ok a) h = ground arith
wrap-eq-ok f (err e) h = cc
wrap-eq-ok f panic h = cc

pub err≢ok {ℓ} : {E A : Type ℓ} (m : Outcome E A) {e : E} {a : A} → m ≡ err e → m ≢ ok a
err≢ok m h h' = cc

pub panic≢ok {ℓ} : {E A : Type ℓ} (m : Outcome E A) {a : A} → m ≡ panic → m ≢ ok a
panic≢ok m h h' = cc

pub ok≡ {ℓ} : {E A : Type ℓ} (m : Outcome E A) {a b : A} → m ≡ ok a → m ≡ ok b → a ≡ b
ok≡ m h h' = cc

pub put_uint16-injective : (m n : ℕ) → m ≤ 0xffff → n ≤ 0xffff → put_uint16 m ≡ put_uint16 n → m ≡ n
put_uint16-injective m n hm hn e =
    cc (sym (uint16-put_uint16 m hm) ∙ ap uint16 e ∙ uint16-put_uint16 n hn)

module _ (st : Store) (laws : ReadsWrites st) (commit : st.Txn → Outcome Store.Error st.Txn)
    (commits : (t t' : st.Txn) (k : Bytes) → commit t ≡ ok t' → st.get t' k ≡ st.get t k) where
  -- What a call for a new id does to the store.
  pub record Assigned (t t' : st.Txn) (id p : Bytes) : Type 0 where
    pub last : ℕ
    pub counted : read_counter st t ≡ ok last
    pub room : last < 0xffff
    pub prefix : p ≡ put_uint16 (last + 1)
    pub written : st.get t' (assignment_key id) ≡ ok p
    pub counter : st.get t' counter_key ≡ ok p
    pub rest : (k : Bytes) → k ≢ assignment_key id → k ≢ counter_key → st.get t' k ≡ st.get t k

  -- The two writes and the commit.
  Assigned-writes :
      (t u v w : st.Txn) (id p : Bytes) (last : ℕ)
      → read_counter st t ≡ ok last
      → last < 0xffff
      → p ≡ put_uint16 (last + 1)
      → st.set t (assignment_key id) p ≡ ok u
      → st.set u counter_key p ≡ ok v
      → commit v ≡ ok w
      → Assigned t w id p
  Assigned-writes t u v w id p last counted room prefix s1 s2 s3 = record {
    last = last;
    counted = counted;
    room = room;
    prefix = prefix;
    written =
        commits v w (assignment_key id) s3
        ∙ laws.get-set_ne u v counter_key (assignment_key id) p s2 (assignment-ne-counter id)
        ∙ laws.get-set t u (assignment_key id) p s1;
    counter = commits v w counter_key s3 ∙ laws.get-set u v counter_key p s2;
    rest = λ k ne ne'.
        commits v w k s3
        ∙ laws.get-set_ne u v counter_key k p s2 ne'
        ∙ laws.get-set_ne t u (assignment_key id) k p s1 ne;
  }

  Assigned-assign_room :
      (t t' : st.Txn) (id p : Bytes) (last : ℕ)
      → read_counter st t ≡ ok last
      → last < 0xffff
      → assign st commit t id ≡ ok (t', p)
      → Assigned t t' id p
  unfolding assign
  Assigned-assign_room t t' id p last counted room h =
      let key = assignment_key id in
      let prefix = put_uint16 ((last + 1) % 2 ^ 16) in
      let fits : ltb 0xffff (last + 1) ≡ false = le→ltb 0xffff (last + 1) (omega arith) in
      let (u, e1, h1) =
        >>=-eq-ok (wrap writing_prefix (st.set t key prefix)) _ (rw (counted, fits) at h) in
      let (v, e2, h2) = >>=-eq-ok (wrap writing_counter (st.set u counter_key prefix)) _ h1 in
      let (w, e3, h3) = >>=-eq-ok (wrap committing (commit v)) _ h2 in
      subst (λ q. Assigned t q.0 id q.1) (ok≡ _ refl h3)
        (Assigned-writes t u v w id prefix last counted room (ap put_uint16 (omega arith))
          (wrap-eq-ok writing_prefix _ e1) (wrap-eq-ok writing_counter _ e2)
          (wrap-eq-ok committing _ e3))

  pub assign_exhausted :
      (t : st.Txn) (id : Bytes) (last : ℕ)
      → read_counter st t ≡ ok last
      → 0xffff ≤ last
      → assign st commit t id ≡ err exhausted
  unfolding assign
  assign_exhausted t id last counted full =
      let fits : ltb 0xffff (last + 1) ≡ true = lt→ltb 0xffff (last + 1) (omega arith) in
      rw (counted, fits)

  assign_err :
      (t : st.Txn) (id : Bytes) (e : Error)
      → read_counter st t ≡ err e
      → assign st commit t id ≡ err e
  unfolding assign
  assign_err t id e h = rw h

  assign_panic :
      (t : st.Txn) (id : Bytes) → read_counter st t ≡ panic → assign st commit t id ≡ panic
  unfolding assign
  assign_panic t id h = rw h

  pub Assigned-assign :
      (t t' : st.Txn) (id p : Bytes) → assign st commit t id ≡ ok (t', p) → Assigned t t' id p
  Assigned-assign t t' id p h = elim (Outcome-cases (read_counter st t)) [
    | inl (last, counted) ↦ elim (dec_lt last 0xffff) [
      | yes room ↦ Assigned-assign_room t t' id p last counted room h
      | no full ↦ absurd (err≢ok _ (assign_exhausted t id last counted (omega arith)) h)
    ]
    | inr (inl (e, failed)) ↦ absurd (err≢ok _ (assign_err t id e failed) h)
    | inr (inr failed) ↦ absurd (panic≢ok _ (assign_panic t id failed) h)
  ]

  -- What a call that succeeds does: the id has a prefix already, or it is given the next one.
  pub get_or_assign_prefix-cases :
      (t t' : st.Txn) (id p : Bytes)
      → get_or_assign_prefix st commit t id ≡ ok (t', p)
      → ((t ≡ t') × (st.get t (assignment_key id) ≡ ok p))
        ⊎ ((st.get t (assignment_key id) ≡ err not_found) × Assigned t t' id p)
  unfolding get_or_assign_prefix
  get_or_assign_prefix-cases t t' [] p h = absurd (err≢ok _ refl h)
  get_or_assign_prefix-cases t t' (c ∷ cs) p h =
      let id = c ∷ cs in
      elim (Outcome-cases (st.get t (assignment_key id))) [
        | inl (q, found) ↦
            let same = ok≡ _ refl (rw found at h) in
            inl (ap (λ x. x.0) same, found ∙ ap ok (ap (λ x. x.1) same))
        | inr (inl (not_found, failed)) ↦ inr (failed, Assigned-assign t t' id p (rw failed at h))
        | inr (inl (Store.other n, failed)) ↦ absurd (err≢ok _ refl (rw failed at h))
        | inr (inr failed) ↦ absurd (panic≢ok _ refl (rw failed at h))
      ]

  pub found_lem :
      (t : st.Txn) (c : ℕ) (cs p : Bytes)
      → st.get t (assignment_key (c ∷ cs)) ≡ ok p
      → get_or_assign_prefix st commit t (c ∷ cs) ≡ ok (t, p)
  unfolding get_or_assign_prefix
  found_lem t c cs p found = rw found

  -- After a call that succeeds, the store holds the prefix of the id.
  pub get-get_or_assign_prefix :
      (t t' : st.Txn) (id p : Bytes)
      → get_or_assign_prefix st commit t id ≡ ok (t', p)
      → st.get t' (assignment_key id) ≡ ok p
  get-get_or_assign_prefix t t' id p h = elim (get_or_assign_prefix-cases t t' id p h) [
    | inl (same, found) ↦ subst (λ x. st.get x (assignment_key id) ≡ ok p) same found
    | inr (missing, assigned) ↦ assigned.written
  ]
