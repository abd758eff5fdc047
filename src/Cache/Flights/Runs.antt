-- ===== src/Cache/Flights/Runs.antt =====
-- Two callers of `GetOrLoad` for one key: one that waits for the other, and one that asks after it.
use yellowstone_common.Common.{ℕ, ◌≡◌, refl, false, none, some}
use yellowstone_common.Common.Int.{pos}
use yellowstone_common.Cache.{
  Cache, value, load, store, remove, expiry, get_item, set, set_with_ttl, sweep, sweep_rows,
}
use yellowstone_common.Cache.History.{sweep_at, step}
use yellowstone_common.Cache.Loading.{after_load}
use yellowstone_common.Cache.Runs.{cache}
use yellowstone_common.Cache.Flights.{
  update, Pc, idle, looking, asking, waiting, leading, loading, System, call, miss, lead, found,
  start, loaded, keep, land, other, Steps, rest, then,
}
use yellowstone_common.Cache.Flights.Returns.{Returns}
use native.Mathlib.Decide.{ℕ_discrete}

abbrev Pcs : Type 0
Pcs = ℕ → Pc ℕ ℕ ℕ

abbrev at : ℕ → Pc ℕ ℕ ℕ → Pcs → Pcs
at i p f = update ℕ_discrete f i p

abbrev idles : System ℕ ℕ ℕ ℕ
idles = record { cache = cache; now = 30; flights = λ t. none; pc = λ i. idle }

abbrev two_ask : Pcs
two_ask = at 1 (asking 7) (at 0 (asking 7) (at 1 (looking 7) (at 0 (looking 7) idles.pc)))

-- The caller 0 loads, and the caller 1 waits for it.
abbrev one_waits : System ℕ ℕ ℕ ℕ
one_waits = record idles {
  flights = update ℕ_discrete idles.flights 7 (some 0);
  pc = at 0 (loading 7) (at 1 (waiting 7 0) (at 0 (leading 7) two_ask));
}

-- Values are stored for good here.
abbrev lasting : Cache ℕ ℕ ℕ
lasting = record cache { ttl = pos 0 }

lasting_missing : get_item ℕ_discrete 0 30 lasting 7 ≡ none
unfolding get_item load ℕ_discrete
lasting_missing = refl

abbrev after : Cache ℕ ℕ ℕ
after = after_load ℕ_discrete 0 30 lasting 7 (value 3)

abbrev swept : Cache ℕ ℕ ℕ
swept = step ℕ_discrete 0 (sweep_at 60) after

swept_found :
    get_item ℕ_discrete 0 30 swept 7 ≡ some (record { item_data = 3; err = none; expires = 0 })
unfolding get_item load ℕ_discrete step set set_with_ttl sweep sweep_rows store remove expiry
swept_found = refl

-- Both callers miss; the caller 0 loads and lands before the caller 1 asks for a flight, which then finds the item.
unfoldable one_after_the_other :
    (s : System ℕ ℕ ℕ ℕ) × Steps ℕ_discrete ℕ_discrete 0
      (λ v. false)
      (λ k. k)
      (record idles { cache = lasting })
      s
unfolding ℕ_discrete
one_after_the_other = (
  _,
  then
      (then
        (then
          (then
            (then
              (then
                (then
                  (then
                    (then
                      (then (then (then rest (call 0 7 refl)) (call 1 7 refl))
                        (miss 0 7 refl lasting_missing))
                      (miss 1 7 refl lasting_missing))
                    (lead 0 7 refl refl))
                  (start 0 7 refl lasting_missing))
                (loaded 0 7 (value 3) refl))
              (keep 0 7 (value 3) refl))
            (land 0 7 (3, none) refl))
          (other (sweep_at 60)))
        (lead 1 7 refl refl))
      (found 1 7 (record { item_data = 3; err = none; expires = 0 }) refl swept_found),
)
