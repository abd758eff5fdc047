-- ===== src/Cache/Flights/Kept.antt =====
-- An item that never expires, in the cache over the operations.
use yellowstone_common.Common.{
  ℕ, ◌≡◌, refl, sym, ◌∙◌, arith, Bool, true, false, Option, none, some, ◌≢◌,
}
use yellowstone_common.Common.Int.{ℤ}
use yellowstone_common.Cache.{
  Item, Cache, Loaded, value, failed, load, expiry, get_item, set, set_with_ttl, set_negative,
  delete, sweep, store_failure,
}
use yellowstone_common.Cache.Laws.{
  Unique, Unique-store, Unique-remove, load-store, load-remove, live, get_item-live, get_item-sweep,
  Unique-sweep_rows,
}
use yellowstone_common.Cache.History.{Op, set_at, fail_at, delete_at, sweep_at, step}
use yellowstone_common.Cache.Loading.{after_load}
use mathlib.Core.Logic.{ite, if_pos}

-- Whether an operation neither stores nor deletes the key: the cleaning does not.
abbrev pub spares {ℓ} : {K V E : Type ℓ} → Discrete K → K → Op K V E → Bool
spares dec k (set_at t j v ttl) = ite (dec j k) false true
spares dec k (fail_at t j e) = ite (dec j k) false true
spares dec k (delete_at t j) = ite (dec j k) false true
spares dec k (sweep_at t) = true

module _ {ℓ} {K V E : Type ℓ} (dec : Discrete K) (zero_value : V) where
  abbrev stored_value : ℕ → V → ℤ → Item V E
  stored_value now v ttl = record { item_data = v; err = none; expires = expiry now ttl }

  abbrev stored_failure : ℕ → E → Cache K V E → Item V E
  stored_failure now e c = record {
    item_data = zero_value;
    err = some e;
    expires = expiry now c.negative_ttl;
  }

  -- The cache holds an item for the key that never expires.
  abbrev pub Kept : K → Cache K V E → Type ℓ
  Kept k c = (it : Item V E) × (load dec k c.items ≡ some it) × (it.expires ≡ 0)

  pub get_item-Kept :
      (now : ℕ) (k : K) (c : Cache K V E) → Kept k c → get_item dec zero_value now c k ≢ none
  unfolding get_item
  get_item-Kept now k c (it, held, forever) = ground (arith, held, forever)

  live_lem : (t : ℕ) (o : Option (Item V E)) (it : Item V E) → live t o ≡ some it → o ≡ some it
  live_lem t none it e = ground arith
  live_lem t (some x) it e = ground arith

  Kept-sweep :
      (t : ℕ) (k : K) (c : Cache K V E)
      → Unique dec c.items
      → Kept k c
      → Kept k (sweep dec zero_value t c)
  Kept-sweep t k c u (it, held, forever) =
      let (same, unique) = get_item-sweep dec zero_value t t c k (omega arith) u in
      let found : live t (load dec k c.items) ≡ some it = ground (arith, held, forever) in
      (
        it,
        live_lem t (load dec k (sweep dec zero_value t c).items) it (
            sym (get_item-live dec zero_value t (sweep dec zero_value t c) k)
            ∙ same
            ∙ get_item-live dec zero_value t c k
            ∙ found),
        forever,
      )

  pub Kept-step :
      (k : K) (op : Op K V E) (c : Cache K V E)
      → spares dec k op ≡ true
      → Unique dec c.items
      → Kept k c
      → Kept k (step dec zero_value op c)
  unfolding step set_with_ttl set_negative delete
  Kept-step k (set_at t j v ttl) c h u (it, held, forever) =
      (it, ground (arith, load-store dec j k (stored_value t v ttl) c.items, held), forever)
  Kept-step k (fail_at t j e) c h u (it, held, forever) =
      (it, ground (arith, load-store dec j k (stored_failure t e c) c.items, held), forever)
  Kept-step k (delete_at t j) c h u (it, held, forever) =
      (it, ground (arith, load-remove dec j k c.items, held), forever)
  Kept-step k (sweep_at t) c h u kept = Kept-sweep t k c u kept

  pub Unique-step :
      (op : Op K V E) (c : Cache K V E)
      → Unique dec c.items
      → Unique dec (step dec zero_value op c).items
  unfolding step set_with_ttl set_negative delete sweep
  Unique-step (set_at t j v ttl) c u = Unique-store dec j (stored_value t v ttl) c.items u
  Unique-step (fail_at t j e) c u = Unique-store dec j (stored_failure t e c) c.items u
  Unique-step (delete_at t j) c u = Unique-remove dec j c.items u
  Unique-step (sweep_at t) c u = Unique-sweep_rows dec zero_value t c.items c.items u

  pub ttl-step : (op : Op K V E) (c : Cache K V E) → (step dec zero_value op c).ttl ≡ c.ttl
  unfolding step set_with_ttl set_negative delete sweep
  ttl-step (set_at t j v ttl) c = refl
  ttl-step (fail_at t j e) c = refl
  ttl-step (delete_at t j) c = refl
  ttl-step (sweep_at t) c = refl

  -- What a flight that loaded leaves of the cache, for the key of the flight and for another one.
  pub Kept-value :
      (now : ℕ) (c : Cache K V E) (k : K) (v : V)
      → expiry now c.ttl ≡ 0
      → Kept k (after_load dec zero_value now c k (value v))
  unfolding set set_with_ttl
  Kept-value now c k v forever =
      (_, load-store dec k k _ c.items ∙ if_pos (dec k k) refl _ _, forever)

  pub Kept-after_load :
      (now : ℕ) (c : Cache K V E) (j k : K) (r : Loaded V E)
      → j ≢ k
      → Kept k c
      → Kept k (after_load dec zero_value now c j r)
  unfolding set set_with_ttl store_failure set_negative
  Kept-after_load now c j k (value v) apart (it, held, forever) = (
    it,
    ground (arith, load-store dec j k (stored_value now v c.ttl) c.items, held, apart),
    forever,
  )
  Kept-after_load now c j k (failed v e) apart (it, held, forever) = (
    it,
    ground (arith, load-store dec j k (stored_failure now e c) c.items, held, apart),
    forever,
  )

  pub Unique-after_load :
      (now : ℕ) (c : Cache K V E) (j : K) (r : Loaded V E)
      → Unique dec c.items
      → Unique dec (after_load dec zero_value now c j r).items
  unfolding set set_with_ttl store_failure set_negative
  Unique-after_load now c j (value v) u = Unique-store dec j (stored_value now v c.ttl) c.items u
  Unique-after_load now c j (failed v e) u =
      ground (arith, Unique-store dec j (stored_failure now e c) c.items u)

  pub ttl-after_load :
      (now : ℕ) (c : Cache K V E) (j : K) (r : Loaded V E)
      → (after_load dec zero_value now c j r).ttl ≡ c.ttl
  unfolding set set_with_ttl store_failure set_negative
  ttl-after_load now c j (value v) = refl
  ttl-after_load now c j (failed v e) = ground arith
