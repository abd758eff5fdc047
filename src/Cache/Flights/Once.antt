-- ===== src/Cache/Flights/Once.antt =====
-- Concurrent calls of `GetOrLoad` on a cache whose values never expire: how often `load` runs for a key.
use yellowstone_common.Common.{ℕ, ◌+◌, ◌≡◌, Bool, true, false, ◌&&◌}
use yellowstone_common.Cache.{Cache, value, failed}
use yellowstone_common.Cache.Laws.{Unique}
use yellowstone_common.Cache.Flights.{
  System, Step, call, hit, miss, lead, join, found, start, loaded, keep, land, leave, other, tick,
  Steps, rest, then,
}
use yellowstone_common.Cache.Flights.Invariant.{Inv}
use yellowstone_common.Cache.Flights.Kept.{spares}
use yellowstone_common.Cache.Flights.Work.{Stage}
use mathlib.Core.Logic.{ite}

module _ {ℓ} {K V E T : Type ℓ} (dec : Discrete K) (dec_text : Discrete T) (zero_value : V)
    (is_nil : V → Bool) (text : K → T) where
  -- How often a step starts `load` for the key.
  abbrev starts : K → {s t : System K V E T} → Step dec dec_text zero_value is_nil text s t → ℕ
  starts k (start i j at e) = ite (dec j k) 1 0
  starts k (call i j at) = 0
  starts k (hit i j it at e) = 0
  starts k (miss i j at e) = 0
  starts k (lead i j at e) = 0
  starts k (join i l j at e) = 0
  starts k (found i j it at e) = 0
  starts k (loaded i j r at) = 0
  starts k (keep i j r at) = 0
  starts k (land i j r at) = 0
  starts k (leave i j r at) = 0
  starts k (other op) = 0
  starts k tick = 0

  -- Whether in a step `load` does not fail for the key, and no other call stores or deletes it.
  abbrev undisturbed :
      K → {s t : System K V E T} → Step dec dec_text zero_value is_nil text s t → Bool
  undisturbed k (loaded i j (value v) at) = true
  undisturbed k (loaded i j (failed v x) at) = ite (dec j k) false true
  undisturbed k (other op) = spares dec k op
  undisturbed k (start i j at e) = true
  undisturbed k (call i j at) = true
  undisturbed k (hit i j it at e) = true
  undisturbed k (miss i j at e) = true
  undisturbed k (lead i j at e) = true
  undisturbed k (join i l j at e) = true
  undisturbed k (found i j it at e) = true
  undisturbed k (keep i j r at) = true
  undisturbed k (land i j r at) = true
  undisturbed k (leave i j r at) = true
  undisturbed k tick = true

  abbrev pub loads : K → {s t : System K V E T} → Steps dec dec_text zero_value is_nil text s t → ℕ
  loads k rest = 0
  loads k (then r st) = loads k r + starts k st

  abbrev pub all_undisturbed :
      K → {s t : System K V E T} → Steps dec dec_text zero_value is_nil text s t → Bool
  all_undisturbed k rest = true
  all_undisturbed k (then r st) = all_undisturbed k r && undisturbed k st

  -- What every state on the way has.
  record Sound (c : Cache K V E) (k : K) (s : System K V E T) (n : ℕ) : Type ℓ where
    flights_fit : Inv dec dec_text zero_value is_nil text s
    unique : Unique dec s.cache.items
    ttl_stays : s.cache.ttl ≡ c.ttl
    stage : Stage dec dec_text zero_value is_nil text k s n
