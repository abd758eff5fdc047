-- ===== src/Cache/Cleaning/Lost.antt =====
-- A store that comes between the look of the cleaning and its delete.
use yellowstone_common.Common.{ℕ, ◌≡◌, refl, ◌∙◌, arith, true, false}
use yellowstone_common.Common.Int.{pos}
use yellowstone_common.Cache.{Cache, get_item, get, set_with_ttl, delete}
use yellowstone_common.Cache.Laws.{load-remove, get-set_with_ttl}
use yellowstone_common.Cache.History.{set_at, step}
use yellowstone_common.Cache.Cleaning.{deleting, System, calls, deletes, Steps, rest, then}
use mathlib.Core.Logic.{if_pos}

module _ {ℓ} {K V E : Type ℓ} (dec : Discrete K) (zero_value : V) where
  get-delete :
      (now : ℕ) (c : Cache K V E) (k : K)
      → get dec zero_value now (delete dec zero_value c k) k ≡ (zero_value, false)
  unfolding get get_item delete
  get-delete now c k = ground (arith, load-remove dec k k c.items)

  -- Where the cleaning is about to delete a key, a value can be stored for the key without a ttl, and be lost at once:
  -- `Get` does not find it, where it would find it if the cache were never cleaned.
  pub deletes-set_at :
      (s : System K V E) (now : ℕ) (k : K) (v : V)
      → s.janitor ≡ deleting now k
      → (t : System K V E) × Steps dec zero_value s t
        × (get dec zero_value t.clock t.cache k ≡ (zero_value, false))
        × (get dec zero_value t.clock t.unswept k ≡ (v, true))
  unfolding step
  deletes-set_at s now k v at =
      let stored = set_with_ttl dec zero_value s.clock s.cache k v (pos 0) in
      (
        _,
        then (then rest (calls (set_at s.clock k v (pos 0)) refl)) (deletes now k at),
        get-delete s.clock stored k,
        get-set_with_ttl dec zero_value s.clock s.clock s.unswept k k v (pos 0)
            ∙ if_pos (dec k k) refl _ _,
      )
