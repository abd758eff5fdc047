-- ===== src/Cache/Cleaning.antt =====
-- cache/cache.go: the goroutine of `New` that cleans, interleaved with the calls of other goroutines. What `Range`
-- shows of a `sync.Map` that changes is taken as loosely as it is documented: at any time any row that is there.
pub mod Quiet
pub mod Invariant
pub mod Lost
mod Runs
use yellowstone_common.Common.{ℕ, ◌+◌, ◌≡◌, Bool, true, false, Option, none, some}
use yellowstone_common.Cache.{Item, Cache, load, expired, delete, close}
use yellowstone_common.Cache.History.{Op, set_at, fail_at, delete_at, sweep_at, step}

-- Where the goroutine stands: at the `select`, in `Range` with the time of the tick, in the callback before it deletes
-- a key, or behind its return.
pub data Janitor {ℓ} (K : Type ℓ) : Type ℓ where
  selecting : Janitor K
  ranging : ℕ → Janitor K
  deleting : ℕ → K → Janitor K
  returned : Janitor K

-- `unswept` has the same calls, and no cleaning: it is what the cache is compared with.
pub record System {ℓ} (K V E : Type ℓ) : Type ℓ where
  pub cache : Cache K V E
  pub unswept : Cache K V E
  pub clock : ℕ
  pub janitor : Janitor K

-- A method that is called at the given time.
abbrev pub IsCall {ℓ} : {K V E : Type ℓ} → ℕ → Op K V E → Type 0
IsCall now (set_at t k v ttl) = t ≡ now
IsCall now (fail_at t k e) = t ≡ now
IsCall now (delete_at t k) = t ≡ now
IsCall now (sweep_at t) = ⊥

module _ {ℓ} {K V E : Type ℓ} (dec : Discrete K) (zero_value : V) where
  pub data Step (s : System K V E) : System K V E → Type ℓ where
    calls :
        (op : Op K V E)
        → IsCall s.clock op
        → Step s (record s {
          cache = step dec zero_value op s.cache;
          unswept = step dec zero_value op s.unswept;
        })
    closes : Step s (record s {
      cache = close dec zero_value s.cache;
      unswept = close dec zero_value s.unswept;
    })
    elapses : Step s (record s { clock = s.clock + 1 })
    ticks : s.janitor ≡ selecting → Step s (record s { janitor = ranging s.clock })
    finds :
        (now : ℕ) (k : K) (it : Item V E)
        → s.janitor ≡ ranging now
        → load dec k s.cache.items ≡ some it
        → expired now it ≡ true
        → Step s (record s { janitor = deleting now k })
    deletes :
        (now : ℕ) (k : K)
        → s.janitor ≡ deleting now k
        → Step s (record s { cache = delete dec zero_value s.cache k; janitor = ranging now })
    ends : (now : ℕ) → s.janitor ≡ ranging now → Step s (record s { janitor = selecting })
    returns :
        s.janitor ≡ selecting → s.cache.closed ≡ true → Step s (record s { janitor = returned })

  pub data Steps (s : System K V E) : System K V E → Type ℓ where
    rest : Steps s s
    then : {t u : System K V E} → Steps s t → Step t u → Steps s u
