-- ===== src/Cache/Flights.antt =====
-- cache/cache.go: `GetOrLoad` of any number of callers at once, interleaved with the other methods and the
-- cleaning. What golang.org/x/sync/singleflight documents of `Do` are the steps `lead`, `join` and `land`:
-- one flight at a time for a text, and the same result for all who come while it is on.
pub mod Roles
pub mod Invariant
pub mod Kept
pub mod Work
pub mod Once
pub mod Returns
mod Runs
use yellowstone_common.Common.{ℕ, Bool, ◌+◌, ◌≡◌, Option, none, some}
use yellowstone_common.Cache.{Item, Cache, Loaded, get_item, flight_result}
use yellowstone_common.Cache.History.{Op, step}
use yellowstone_common.Cache.Loading.{outcome, after_load}
use mathlib.Core.Logic.{ite}
use native.Mathlib.Decide.{ℕ_discrete}

abbrev pub update {ℓ κ} : {A : Type ℓ} {B : Type κ} → Discrete A → (A → B) → A → B → A → B
update dec f a b x = ite (dec a x) b (f x)

-- Where a caller stands. In a flight, `leading` is before the second look, `loading` is while `load` runs,
-- `storing` is behind it, and `landing` is with the result of the flight; `done`
-- is with what the call returns, or behind its panic.
pub data Pc {ℓ} (K V E : Type ℓ) : Type ℓ where
  idle : Pc K V E
  looking : K → Pc K V E
  asking : K → Pc K V E
  waiting : K → ℕ → Pc K V E
  leading : K → Pc K V E
  loading : K → Pc K V E
  storing : K → Loaded V E → Pc K V E
  landing : K → V × Option E → Pc K V E
  done : K → Option (V × Option E) → Pc K V E

-- The cache, the time, the leader of the flight of each text, and the callers.
pub record System {ℓ} (K V E T : Type ℓ) : Type ℓ where
  pub cache : Cache K V E
  pub now : ℕ
  pub flights : T → Option ℕ
  pub pc : ℕ → Pc K V E

-- A caller that waits for a flight, when it lands.
abbrev pub wake {ℓ} : {K V E : Type ℓ} → ℕ → Option (V × Option E) → Pc K V E → Pc K V E
wake i r idle = idle
wake i r (looking k) = looking k
wake i r (asking k) = asking k
wake i r (waiting k l) = ite (ℕ_discrete l i) (done k r) (waiting k l)
wake i r (leading k) = leading k
wake i r (loading k) = loading k
wake i r (storing k x) = storing k x
wake i r (landing k x) = landing k x
wake i r (done k x) = done k x

-- `dec` decides the keys, and `text` is `fmt.Sprint`.
module _ {ℓ} {K V E T : Type ℓ} (dec : Discrete K) (dec_text : Discrete T) (zero_value : V)
    (is_nil : V → Bool) (text : K → T) where
  pub data Step (s : System K V E T) : System K V E T → Type ℓ where
    call :
        (i : ℕ) (k : K)
        → s.pc i ≡ idle
        → Step s (record s { pc = update ℕ_discrete s.pc i (looking k) })
    hit :
        (i : ℕ) (k : K) (it : Item V E)
        → s.pc i ≡ looking k
        → get_item dec zero_value s.now s.cache k ≡ some it
        → Step s (record s { pc = update ℕ_discrete s.pc i (done k (some (it.item_data, it.err))) })
    miss :
        (i : ℕ) (k : K)
        → s.pc i ≡ looking k
        → get_item dec zero_value s.now s.cache k ≡ none
        → Step s (record s { pc = update ℕ_discrete s.pc i (asking k) })
    lead :
        (i : ℕ) (k : K)
        → s.pc i ≡ asking k
        → s.flights (text k) ≡ none
        → Step s (record s {
          flights = update dec_text s.flights (text k) (some i);
          pc = update ℕ_discrete s.pc i (leading k);
        })
    join :
        (i l : ℕ) (k : K)
        → s.pc i ≡ asking k
        → s.flights (text k) ≡ some l
        → Step s (record s { pc = update ℕ_discrete s.pc i (waiting k l) })
    found :
        (i : ℕ) (k : K) (it : Item V E)
        → s.pc i ≡ leading k
        → get_item dec zero_value s.now s.cache k ≡ some it
        → Step s (record s { pc = update ℕ_discrete s.pc i (landing k (it.item_data, it.err)) })
    start :
        (i : ℕ) (k : K)
        → s.pc i ≡ leading k
        → get_item dec zero_value s.now s.cache k ≡ none
        → Step s (record s { pc = update ℕ_discrete s.pc i (loading k) })
    loaded :
        (i : ℕ) (k : K) (r : Loaded V E)
        → s.pc i ≡ loading k
        → Step s (record s { pc = update ℕ_discrete s.pc i (storing k r) })
    keep :
        (i : ℕ) (k : K) (r : Loaded V E)
        → s.pc i ≡ storing k r
        → Step s (record s {
          cache = after_load dec zero_value s.now s.cache k r;
          pc = update ℕ_discrete s.pc i (landing k (outcome r));
        })
    land :
        (i : ℕ) (k : K) (r : V × Option E)
        → s.pc i ≡ landing k r
        → Step s (record s {
          flights = update dec_text s.flights (text k) none;
          pc =
              update ℕ_discrete
                (λ j. wake i (flight_result dec zero_value is_nil r) (s.pc j))
                i
                (done k (flight_result dec zero_value is_nil r));
        })
    leave :
        (i : ℕ) (k : K) (r : Option (V × Option E))
        → s.pc i ≡ done k r
        → Step s (record s { pc = update ℕ_discrete s.pc i idle })
    other : (op : Op K V E) → Step s (record s { cache = step dec zero_value op s.cache })
    tick : Step s (record s { now = s.now + 1 })

  -- From a cache and a time with no caller.
  pub data Reach (c : Cache K V E) (now : ℕ) : System K V E T → Type ℓ where
    begin : Reach c now (record { cache = c; now = now; flights = λ t. none; pc = λ i. idle })
    later : {s t : System K V E T} → Reach c now s → Step s t → Reach c now t

  pub data Steps (s : System K V E T) : System K V E T → Type ℓ where
    rest : Steps s s
    then : {t u : System K V E T} → Steps s t → Step t u → Steps s u
