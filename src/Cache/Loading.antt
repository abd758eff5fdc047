-- ===== src/Cache/Loading.antt =====
-- `GetOrLoad`: what one call leaves for the next.
use yellowstone_common.Common.{ℕ, ◌≡◌, if◌then◌else◌, Bool, true, false, Option, none, some}
use yellowstone_common.Cache.{
  Item, Cache, Loaded, value, failed, get_item, set, store_failure, flight, flight_result,
  get_or_load,
}
use yellowstone_common.Cache.Laws.{outlived}

-- The value and the error that `load` returned.
abbrev pub outcome {ℓ} : {V E : Type ℓ} → Loaded V E → V × Option E
outcome (value v) = (v, none)
outcome (failed v e) = (v, some e)

-- Whether negative caching is on and accepts the error.
abbrev pub cacheable {ℓ} : {K V E : Type ℓ} → Cache K V E → E → Bool
cacheable c e = elim c.is_cacheable_error [ none ↦ false | some p ↦ p e ]

module _ {ℓ} {K V E : Type ℓ} (dec : Discrete K) (zero_value : V) where
  -- What a call that loaded `r` and finished at a time leaves to be found at a later one: a value
  -- for the ttl, an accepted error for the negative ttl, and nothing else.
  abbrev pub remembered : ℕ → Cache K V E → Loaded V E → ℕ → Option (V × Option E)
  remembered finish c (value v) now = if outlived finish c.ttl now then none else some (v, none)
  remembered finish c (failed v e) now =
      if cacheable c e
      then (if outlived finish c.negative_ttl now then none else some (zero_value, some e))
      else none

  -- The cache behind a call that had to load.
  abbrev pub after_load : ℕ → Cache K V E → K → Loaded V E → Cache K V E
  after_load finish c k (value v) = set dec zero_value finish c k v
  after_load finish c k (failed v e) = store_failure dec zero_value finish c k e

module _ {ℓ} {K V E : Type ℓ} (dec : Discrete K) (zero_value : V) (is_nil : V → Bool) where
  pub call_missing :
      (now start finish : ℕ) (c : Cache K V E) (k : K) (r : Loaded V E)
      → get_item dec zero_value now c k ≡ none
      → get_item dec zero_value start c k ≡ none
      → get_or_load dec zero_value is_nil now start finish c k r ≡ (
        after_load dec zero_value finish c k r,
        flight_result dec zero_value is_nil (outcome r),
        true,
      )
  unfolding get_or_load flight
  call_missing now start finish c k (value v) e f = rw (e, get_or_load) (rw (f, flight))
  call_missing now start finish c k (failed v x) e f = rw (e, get_or_load) (rw (f, flight))

  pub call_found :
      (now start finish : ℕ) (c : Cache K V E) (k : K) (r : Loaded V E) (it : Item V E)
      → get_item dec zero_value now c k ≡ some it
      → get_or_load dec zero_value is_nil now start finish c k r
        ≡ (c, some (it.item_data, it.err), false)
  unfolding get_or_load
  call_found now start finish c k r it e = rw (e, get_or_load)

  -- What a call returns, and whether it loads, once `o` is remembered of the one before.
  abbrev pub answer : Option (V × Option E) → Loaded V E → Option (V × Option E) × Bool
  answer none r = (flight_result dec zero_value is_nil (outcome r), true)
  answer (some res) r = (some res, false)
