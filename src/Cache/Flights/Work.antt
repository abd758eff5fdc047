-- ===== src/Cache/Flights/Work.antt =====
-- Concurrent calls of `GetOrLoad`: how far the load of a key is.
use yellowstone_common.Common.{
  ℕ, ◌+◌, ◌≤◌, ◌≡◌, refl, sym, ◌∙◌, ap, subst, arith, Bool, true, Option, none, some, ◌≢◌,
}
use yellowstone_common.Cache.{Loaded, value, expiry, get_item}
use yellowstone_common.Cache.Loading.{outcome, after_load}
use yellowstone_common.Cache.Flights.{
  update, Pc, leading, loading, storing, landing, done, System, wake,
}
use yellowstone_common.Cache.Flights.Roles.{
  work, work-in_flight, storing-key, storing-work, well_stored, wake-work, in_flight, update_at,
  update_off, update-role,
}
use yellowstone_common.Cache.Flights.Invariant.{Inv}
use yellowstone_common.Cache.Flights.Kept.{Kept, get_item-Kept, Kept-value, Kept-after_load}
use native.Mathlib.Decide.{ℕ_discrete}
use mathlib.Core.Logic.{ite}

module _ {ℓ} {K V E T : Type ℓ} (dec : Discrete K) (dec_text : Discrete T) (zero_value : V)
    (is_nil : V → Bool) (text : K → T) where
  -- Nobody loads or stores the key.
  abbrev Free : K → System K V E T → Type ℓ
  Free k s = (j : ℕ) (b : Bool) → work (s.pc j) ≢ some (k, b)

  -- How far a key is, once `n` loads of it were started.
  pub data Stage (k : K) (s : System K V E T) (n : ℕ) : Type ℓ where
    fresh : n ≡ 0 → Stage k s n
    busy : n ≡ 1 → (i : ℕ) → work (s.pc i) ≡ some (k, true) → Stage k s n
    kept : n ≡ 1 → Kept dec zero_value k s.cache → Free k s → Stage k s n

  pub Stage-quiet :
      (k : K) (s t : System K V E T) (n m : ℕ)
      → m ≡ n
      → ((j : ℕ) → work (t.pc j) ≡ work (s.pc j))
      → (Kept dec zero_value k s.cache → Kept dec zero_value k t.cache)
      → Stage k s n
      → Stage k t m
  Stage-quiet k s t n m e same carry (fresh z) = fresh (e ∙ z)
  Stage-quiet k s t n m e same carry (busy o i w) = busy (e ∙ o) i (same i ∙ w)
  Stage-quiet k s t n m e same carry (kept o h free) =
      kept (e ∙ o) (carry h) (λ j b w. free j b (sym (same j) ∙ w))

  -- Only the place of one caller changes, and not what it has to do with a load.
  pub Stage-moved :
      (k : K) (s t : System K V E T) (n m i : ℕ) (q p : Pc K V E)
      → m ≡ n
      → t.pc ≡ update ℕ_discrete s.pc i p
      → t.cache ≡ s.cache
      → s.pc i ≡ q
      → work p ≡ work q
      → Stage k s n
      → Stage k t m
  Stage-moved k s t n m i q p e moved same at w =
      Stage-quiet k s t n m e
        (λ j.
          ap (λ f. work (f j)) moved
          ∙ update-role ℕ_discrete work s.pc i p (w ∙ sym (ap work at)) j)
        (λ h. subst (Kept dec zero_value k) (sym same) h)

  -- The caller that leads a flight for the key is the only one.
  sole :
      (k : K) (s : System K V E T) (i j : ℕ)
      → Inv dec dec_text zero_value is_nil text s
      → in_flight (s.pc i) ≡ some k
      → in_flight (s.pc j) ≡ some k
      → i ≡ j
  sole k s i j inv a b = ground (arith, inv.flown i k a, inv.flown j k b)

  pub Stage-start :
      (k : K) (s : System K V E T) (n i : ℕ) (j : K)
      → Inv dec dec_text zero_value is_nil text s
      → s.pc i ≡ leading j
      → get_item dec zero_value s.now s.cache j ≡ none
      → Stage k s n
      → Stage k (record s { pc = update ℕ_discrete s.pc i (loading j) }) (n + ite (dec j k) 1 0)
  Stage-start k s n i j inv at e (fresh z) = elim (dec j k) [
    | yes same ↦ busy (ground arith) i (ground (arith, same))
    | no apart ↦ fresh (ground arith)
  ]
  Stage-start k s n i j inv at e (busy o l w) = elim (ℕ_discrete i l) [
    | yes same ↦ ground (arith, at, w, same)
    | no other_one ↦ elim (dec j k) [
      | yes same ↦ absurd (
          other_one
            (sole k s i l inv (ap in_flight at ∙ ap some same) (work-in_flight (s.pc l) k true w)))
      | no apart ↦
          busy (ground arith) l (ap work (update_off ℕ_discrete s.pc i l (loading j) other_one) ∙ w)
    ]
  ]
  Stage-start k s n i j inv at e (kept o h free) = elim (dec j k) [
    | yes same ↦ absurd (
        get_item-Kept dec zero_value s.now k s.cache h
          (subst (λ x. get_item dec zero_value s.now s.cache x ≡ none) same e))
    | no apart ↦ kept (ground arith) h (λ x b w. elim (ℕ_discrete i x) [
      | yes same ↦ ground (arith, apart)
      | no other_one ↦ ground (arith, free x b)
    ])
  ]

  pub Stage-loaded :
      (k : K) (s : System K V E T) (n i : ℕ) (j : K) (r : Loaded V E)
      → s.pc i ≡ loading j
      → (j ≡ k → work (storing j r) ≡ some (k, true))
      → Stage k s n
      → Stage k (record s { pc = update ℕ_discrete s.pc i (storing j r) }) n
  Stage-loaded k s n i j r at well (fresh z) = fresh z
  Stage-loaded k s n i j r at well (busy o l w) = elim (ℕ_discrete i l) [
    | yes same ↦
        busy o i
          (ap work (update_at ℕ_discrete s.pc i (storing j r)) ∙ well (ground (arith, at, w, same)))
    | no other_one ↦ busy o l (ap work (update_off ℕ_discrete s.pc i l (storing j r) other_one) ∙ w)
  ]
  Stage-loaded k s n i j r at well (kept o h free) = kept o h (λ x b w. elim (ℕ_discrete i x) [
    | yes same ↦ free i true (
        ap work at
        ∙ ap (λ y. some (y, true))
            (storing-key j r k b (
              sym (ap work (update_at ℕ_discrete s.pc i (storing j r)))
              ∙ ap (λ y. work (update ℕ_discrete s.pc i (storing j r) y)) same
              ∙ w)))
    | no other_one ↦
        free x b (sym (ap work (update_off ℕ_discrete s.pc i x (storing j r) other_one)) ∙ w)
  ])

  pub Stage-keep :
      (k : K) (s : System K V E T) (n i : ℕ) (j : K) (r : Loaded V E)
      → Inv dec dec_text zero_value is_nil text s
      → expiry s.now s.cache.ttl ≡ 0
      → s.pc i ≡ storing j r
      → Stage k s n
      → Stage k
          (record s {
            cache = after_load dec zero_value s.now s.cache j r;
            pc = update ℕ_discrete s.pc i (landing j (outcome r));
          })
          n
  Stage-keep k s n i j r inv forever at (fresh z) = fresh z
  Stage-keep k s n i j r inv forever at (busy o l w) = elim (ℕ_discrete i l) [
    | yes same ↦
        let (v, here, is_value) =
          well_stored j r k (sym (ap work at) ∙ ap (λ x. work (s.pc x)) same ∙ w) in
        kept o
          (subst (λ x. Kept dec zero_value k (after_load dec zero_value s.now s.cache j x))
            (sym is_value)
            (subst
              (λ x. Kept dec zero_value k (after_load dec zero_value s.now s.cache x (value v)))
              (sym here) (Kept-value dec zero_value s.now s.cache k v forever)))
          (λ x b u. elim (ℕ_discrete i x) [
            | yes me ↦ ground arith
            | no other_one ↦ other_one (
                sole k s i x inv (ap in_flight at ∙ ap some here) (
                  work-in_flight (s.pc x) k b (
                    sym (ap work (update_off ℕ_discrete s.pc i x (landing j (outcome r)) other_one))
                    ∙ u)))
          ])
    | no other_one ↦
        busy o l (ap work (update_off ℕ_discrete s.pc i l (landing j (outcome r)) other_one) ∙ w)
  ]
  Stage-keep k s n i j r inv forever at (kept o h free) =
      kept o
        (Kept-after_load dec zero_value s.now s.cache j k r
          (λ same.
            let (b, w) = storing-work j r in free i b (ap work at ∙ w ∙ ap (λ y. some (y, b)) same))
          h)
        (λ x b u. elim (ℕ_discrete i x) [
          | yes me ↦ ground arith
          | no other_one ↦
              free x b (
                sym (ap work (update_off ℕ_discrete s.pc i x (landing j (outcome r)) other_one))
                ∙ u)
        ])

  pub Stage-land :
      (k : K) (s : System K V E T) (n i : ℕ) (j : K) (r : V × Option E) (x : Option (V × Option E))
      → s.pc i ≡ landing j r
      → Stage k s n
      → Stage k
          (record s {
            flights = update dec_text s.flights (text j) none;
            pc = update ℕ_discrete (λ l. wake i x (s.pc l)) i (done j x);
          })
          n
  Stage-land k s n i j r x at st =
      Stage-quiet k s _ n n refl
        (λ l.
          update-role ℕ_discrete work (λ y. wake i x (s.pc y)) i (done j x)
            (sym (wake-work i x (s.pc i) ∙ ap work at)) l
          ∙ wake-work i x (s.pc l))
        (λ h. h) st

  pub at_most_one : {k : K} {s : System K V E T} {n : ℕ} → Stage k s n → n ≤ 1
  at_most_one (fresh z) = omega arith
  at_most_one (busy o i w) = omega arith
  at_most_one (kept o h free) = omega arith
