-- ===== src/Cache/Flights/Returns.antt =====
-- Concurrent calls of `GetOrLoad`: which steps bring a caller to its return.
use yellowstone_common.Common.{ℕ, Bool, ◌≡◌, Option, ◌≢◌}
use yellowstone_common.Cache.{Cache}
use yellowstone_common.Cache.Flights.{landing, done, System, Step, Steps, rest, then}

module _ {ℓ} {K V E T : Type ℓ} (dec : Discrete K) (dec_text : Discrete T) (zero_value : V)
    (is_nil : V → Bool) (text : K → T) where
  pub first_step :
      {s t u : System K V E T}
      → Step dec dec_text zero_value is_nil text s t
      → Steps dec dec_text zero_value is_nil text t u
      → Steps dec dec_text zero_value is_nil text s u
  first_step st rest = then rest st
  first_step st (then sts st') = then (first_step st sts) st'

  -- The flight that `l` leads can come to land, while all others stay where they are.
  record Lands (s : System K V E T) (l : ℕ) (k : K) : Type ℓ where
    after : System K V E T
    result : V × Option E
    steps : Steps dec dec_text zero_value is_nil text s after
    landed : after.pc l ≡ landing k result
    others : (j : ℕ) → l ≢ j → after.pc j ≡ s.pc j

  -- The caller `i` can come to the end of its call: to return, or to the panic of `v.(V)`.
  abbrev pub Returns : System K V E T → ℕ → K → Type ℓ
  Returns s i k =
      (t : System K V E T) × (r : Option (V × Option E)) × Steps dec dec_text zero_value is_nil text
        s t
      × (t.pc i ≡ done k r)
