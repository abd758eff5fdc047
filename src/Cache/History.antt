-- ===== src/Cache/History.antt =====
-- A cache against an ideal one that is never cleaned, over any sequence of calls and cleanings.
use yellowstone_common.Common.{
  ℕ, ◌≤◌, ◌≡◌, refl, sym, ◌∙◌, arith, Option, none, some, List, [], ◌∷◌, All,
}
use yellowstone_common.Common.Int.{ℤ}
use yellowstone_common.Cache.{
  Item, Cache, load, expiry, get_item, set_with_ttl, set_negative, delete, sweep,
}
use yellowstone_common.Cache.Laws.{
  Unique, Unique-store, Unique-remove, load-store, load-remove, live, get_item-live, get_item-sweep,
}
use mathlib.Core.Logic.{ite}

-- A call that changes the cache, or the cleaning, with its time.
pub data Op {ℓ} (K V E : Type ℓ) : Type ℓ where
  set_at : ℕ → K → V → ℤ → Op K V E
  fail_at : ℕ → K → E → Op K V E
  delete_at : ℕ → K → Op K V E
  sweep_at : ℕ → Op K V E

abbrev pub time {ℓ} : {K V E : Type ℓ} → Op K V E → ℕ
time (set_at t k v ttl) = t
time (fail_at t k e) = t
time (delete_at t k) = t
time (sweep_at t) = t

module _ {ℓ} {K V E : Type ℓ} (dec : Discrete K) (zero_value : V) where
  unfoldable pub step : Op K V E → Cache K V E → Cache K V E
  step (set_at t k v ttl) c = set_with_ttl dec zero_value t c k v ttl
  step (fail_at t k e) c = set_negative dec zero_value t c k e
  step (delete_at t k) c = delete dec zero_value c k
  step (sweep_at t) c = sweep dec zero_value t c

  unfoldable pub run : List (Op K V E) → Cache K V E → Cache K V E
  unfolding step
  run [] c = c
  run (op ∷ ops) c = run ops (step op c)

  -- What the ideal cache holds for one key: the last store, unless a delete came behind it.
  abbrev pub ideal_step : ℤ → K → Op K V E → Option (Item V E) → Option (Item V E)
  ideal_step neg k (set_at t j v ttl) o =
      ite (dec j k) (some (record { item_data = v; err = none; expires = expiry t ttl })) o
  ideal_step neg k (fail_at t j e) o =
      ite (dec j k) (some (record { item_data = zero_value; err = some e; expires = expiry t neg }))
        o
  ideal_step neg k (delete_at t j) o = ite (dec j k) none o
  ideal_step neg k (sweep_at t) o = o

  abbrev pub ideal : ℤ → K → List (Op K V E) → Option (Item V E) → Option (Item V E)
  ideal neg k [] o = o
  ideal neg k (op ∷ ops) o = ideal neg k ops (ideal_step neg k op o)

  -- What the steps preserve, for a look at `now`.
  record Follows (now : ℕ) (neg : ℤ) (k : K) (c : Cache K V E) (o : Option (Item V E))
      : Type ℓ where
    unique : Unique dec c.items
    config : c.negative_ttl ≡ neg
    same : live now (load dec k c.items) ≡ live now o

  step-Follows :
      (now : ℕ) (neg : ℤ) (k : K) (op : Op K V E) (c : Cache K V E) (o : Option (Item V E))
      → time op ≤ now
      → Follows now neg k c o
      → Follows now neg k (step op c) (ideal_step neg k op o)
  unfolding step set_with_ttl set_negative delete
  step-Follows now neg k (set_at t j v ttl) c o h f = record {
    unique =
        Unique-store dec j (record { item_data = v; err = none; expires = expiry t ttl }) c.items
          f.unique;
    config = f.config;
    same = ground (
      arith,
      load-store dec j k (record { item_data = v; err = none; expires = expiry t ttl }) c.items,
      f.same,
    );
  }
  step-Follows now neg k (fail_at t j e) c o h f = record {
    unique =
        Unique-store dec j
          (record { item_data = zero_value; err = some e; expires = expiry t c.negative_ttl })
          c.items f.unique;
    config = f.config;
    same = ground (
      arith,
      load-store dec j k
          (record { item_data = zero_value; err = some e; expires = expiry t c.negative_ttl })
          c.items,
      f.same,
      f.config,
    );
  }
  step-Follows now neg k (delete_at t j) c o h f = record {
    unique = Unique-remove dec j c.items f.unique;
    config = f.config;
    same = ground (arith, load-remove dec j k c.items, f.same);
  }
  step-Follows now neg k (sweep_at t) c o h f =
      let (kept, unique) = get_item-sweep dec zero_value t now c k h f.unique in
      record {
        unique = unique;
        config = unfold sweep in f.config;
        same =
            sym (get_item-live dec zero_value now (sweep dec zero_value t c) k)
            ∙ kept
            ∙ get_item-live dec zero_value now c k
            ∙ f.same;
      }

  run-Follows :
      (now : ℕ) (neg : ℤ) (k : K) (ops : List (Op K V E)) (c : Cache K V E) (o : Option (Item V E))
      → All (λ op. time op ≤ now) ops
      → Follows now neg k c o
      → Follows now neg k (run ops c) (ideal neg k ops o)
  unfolding run
  run-Follows now neg k [] c o h f = f
  run-Follows now neg k (op ∷ ops) c o (early, h) f =
      run-Follows now neg k ops (step op c) (ideal_step neg k op o) h
        (step-Follows now neg k op c o early f)

  -- Whenever the cleaning runs, a look at the cache finds what the last store of the key left,
  -- unless it was deleted or is expired; and no key is stored twice.
  pub get_item-run :
      (now : ℕ) (ops : List (Op K V E)) (c : Cache K V E) (k : K)
      → Unique dec c.items
      → All (λ op. time op ≤ now) ops
      → (get_item dec zero_value now (run ops c) k
          ≡ live now (ideal c.negative_ttl k ops (load dec k c.items)))
        × Unique dec (run ops c).items
  get_item-run now ops c k u h =
      let f =
        run-Follows now c.negative_ttl k ops c (load dec k c.items) h
          (record { unique = u; config = refl; same = refl }) in
      (get_item-live dec zero_value now (run ops c) k ∙ f.same, f.unique)
