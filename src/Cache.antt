-- ===== src/Cache.antt =====
-- cache/cache.go: `Cache`, with the current time and the outcome of a load as arguments. Times are
-- nanoseconds since the epoch, without the upper bound of an `int64`; a duration is an integer.
-- `sync.Map` is an association list, and the zero value of `V` is the argument `zero_value`.
pub mod Laws
pub mod Loading
pub mod History
pub mod Flights
pub mod Cleaning
pub mod Runs
use yellowstone_common.Common.{
  ℕ, zero, suc, ◌+◌, ◌*◌, ltb, if◌then◌else◌, Bool, true, false, ◌&&◌, Option, none, some, List, [],
  ◌∷◌,
}
use yellowstone_common.Common.Int.{ℤ, pos, negsuc}
use mathlib.Core.Logic.{ite}

-- `sync.Map`: `Load`, `Store` and `Delete`.
module _ {ℓ} {K V : Type ℓ} (dec : Discrete K) where
  unfoldable pub load : K → List (K × V) → Option V
  load k [] = none
  load k ((j, v) ∷ m) = ite (dec j k) (some v) (load k m)

  unfoldable pub remove : K → List (K × V) → List (K × V)
  remove k [] = []
  remove k ((j, v) ∷ m) = let rest = remove k m in ite (dec j k) rest ((j, v) ∷ rest)

  unfoldable pub store : K → V → List (K × V) → List (K × V)
  unfolding remove
  store k v m = (k, v) ∷ remove k m

pub record Item {ℓ} (V E : Type ℓ) : Type ℓ where
  pub item_data : V
  pub err : Option E
  pub expires : ℕ

pub record Options {ℓ} (E : Type ℓ) : Type ℓ where
  pub ttl : ℤ
  pub negative_ttl : ℤ
  pub cleaning_interval : ℤ
  pub is_cacheable_error : Option (E → Bool)

pub record Cache {ℓ} (K V E : Type ℓ) : Type ℓ where
  pub items : List (K × Item V E)
  pub ttl : ℤ
  pub negative_ttl : ℤ
  pub is_cacheable_error : Option (E → Bool)
  pub closed : Bool

-- The four options of `New`, and the order in which it applies them.
module _ {ℓ} {E : Type ℓ} where
  abbrev pub with_ttl : ℤ → Options E → Options E
  with_ttl d o = record o { ttl = d }

  abbrev pub with_negative_ttl : ℤ → Options E → Options E
  with_negative_ttl d o = record o { negative_ttl = d }

  abbrev pub with_cleaning_interval : ℤ → Options E → Options E
  with_cleaning_interval d o = record o { cleaning_interval = d }

  abbrev pub with_cacheable_error : (E → Bool) → Options E → Options E
  with_cacheable_error p o = record o { is_cacheable_error = some p }

  -- `time.Minute` is the default cleaning interval.
  abbrev pub default_options : Options E
  default_options = record {
    ttl = pos 0;
    negative_ttl = pos 0;
    cleaning_interval = pos (60 * 1_000_000_000);
    is_cacheable_error = none;
  }

  unfoldable pub apply_options : List (Options E → Options E) → Options E → Options E
  apply_options [] o = o
  apply_options (opt ∷ opts) o = apply_options opts (opt o)

-- `New`: `none` is the panic of `time.NewTicker`, in the goroutine that cleans, for an interval of 0 or less.
unfoldable pub new {ℓ} : {K V E : Type ℓ} → List (Options E → Options E) → Option (Cache K V E)
unfolding apply_options
new {K = K} {V} {E} opts =
    let o = apply_options opts default_options in
    let cache : Cache K V E = record {
      items = [];
      ttl = o.ttl;
      negative_ttl = o.negative_ttl;
      is_cacheable_error = o.is_cacheable_error;
      closed = false;
    } in
    elim o.cleaning_interval [ pos zero ↦ none | pos (suc d) ↦ some cache | negsuc d ↦ none ]

-- `if ttl > 0 { expires = time.Now().Add(ttl).UnixNano() }`
unfoldable pub expiry : ℕ → ℤ → ℕ
expiry now (pos zero) = 0
expiry now (pos (suc d)) = now + suc d
expiry now (negsuc d) = 0

-- `item.expires > 0 && now > item.expires`
abbrev pub expired {ℓ} : {V E : Type ℓ} → ℕ → Item V E → Bool
expired now it = ltb 0 it.expires && ltb it.expires now

-- What `load` returned: a value, or a value beside an error.
pub data Loaded {ℓ} (V E : Type ℓ) : Type ℓ where
  value : V → Loaded V E
  failed : V → E → Loaded V E

module _ {ℓ} {K V E : Type ℓ} (dec : Discrete K) (zero_value : V) where
  unfoldable pub get_item : ℕ → Cache K V E → K → Option (Item V E)
  unfolding load
  get_item now c key = elim (load dec key c.items) [
    | none ↦ none
    | some it ↦ if expired now it then none else some it
  ]

  unfoldable pub get : ℕ → Cache K V E → K → V × Bool
  get now c key = elim (get_item now c key) [
    | none ↦ (zero_value, false)
    | some it ↦ elim it.err [ none ↦ (it.item_data, true) | some _ ↦ (zero_value, false) ]
  ]

  unfoldable pub set_with_ttl : ℕ → Cache K V E → K → V → ℤ → Cache K V E
  unfolding store expiry
  set_with_ttl now c key v ttl = record c {
    items = store dec key (record { item_data = v; err = none; expires = expiry now ttl }) c.items;
  }

  unfoldable pub set : ℕ → Cache K V E → K → V → Cache K V E
  unfolding set_with_ttl
  set now c key v = set_with_ttl now c key v c.ttl

  unfoldable pub set_negative : ℕ → Cache K V E → K → E → Cache K V E
  unfolding store expiry
  set_negative now c key e = record c {
    items =
        store dec key
          (record { item_data = zero_value; err = some e; expires = expiry now c.negative_ttl })
          c.items;
  }

  unfoldable pub delete : Cache K V E → K → Cache K V E
  unfolding remove
  delete c key = record c { items = remove dec key c.items }

  -- The error of `load` is stored if the cache was made with a predicate that accepts it.
  unfoldable pub store_failure : ℕ → Cache K V E → K → E → Cache K V E
  unfolding set_negative
  store_failure now c key e = elim c.is_cacheable_error [
    | none ↦ c
    | some p ↦ if p e then set_negative now c key e else c
  ]

  -- The function that `GetOrLoad` gives to `singleflight`: the second look at the cache at
  -- `start`, the load, and the store at `finish`. The last part says whether `load` was called.
  unfoldable pub flight : ℕ → ℕ → Cache K V E → K → Loaded V E → Cache K V E × (V × Option E) × Bool
  unfolding store_failure set
  flight start finish c key r = elim (get_item start c key) [
    | some it ↦ (c, (it.item_data, it.err), false)
    | none ↦ elim r [
      | value v ↦ (set finish c key v, (v, none), true)
      | failed v e ↦ (store_failure finish c key e, (v, some e), true)
    ]
  ]

  -- What `GetOrLoad` returns from the result of a flight. `is_nil` says that `V` is an interface type and the
  -- value its nil, for which `v.(V)` panics: that is `none`.
  module _ (is_nil : V → Bool) where
    abbrev pub flight_result : V × Option E → Option (V × Option E)
    flight_result (v, none) = if is_nil v then none else some (v, none)
    flight_result (v, some e) = some (zero_value, some e)

    -- `GetOrLoad` of a caller that starts its own flight; `now` is the time of the first look.
    unfoldable pub get_or_load :
        ℕ → ℕ → ℕ → Cache K V E → K → Loaded V E → Cache K V E × Option (V × Option E) × Bool
    get_or_load now start finish c key r = elim (get_item now c key) [
      | some it ↦ (c, some (it.item_data, it.err), false)
      | none ↦
          let (c', result, called) = flight start finish c key r in
          (c', flight_result result, called)
    ]

  -- The cleaning at one tick: `Range` over the rows, and `Delete` of those that are expired.
  unfoldable pub sweep_rows : ℕ → List (K × Item V E) → List (K × Item V E) → List (K × Item V E)
  unfolding remove
  sweep_rows now [] m = m
  sweep_rows now ((k, it) ∷ rows) m =
      sweep_rows now rows (if expired now it then remove dec k m else m)

  unfoldable pub sweep : ℕ → Cache K V E → Cache K V E
  unfolding sweep_rows
  sweep now c = record c { items = sweep_rows now c.items c.items }

  -- `Close`, which may be called again.
  unfoldable pub close : Cache K V E → Cache K V E
  close c = if c.closed then c else record c { closed = true }
