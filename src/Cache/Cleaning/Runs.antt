-- ===== src/Cache/Cleaning/Runs.antt =====
-- A cleaning with a store that comes in between.
use yellowstone_common.Common.{ℕ, ◌≡◌, refl, true, false, none, some}
use yellowstone_common.Cache.{Item, load, get_item, get, delete}
use yellowstone_common.Cache.Runs.{cache}
use yellowstone_common.Cache.Cleaning.{
  System, selecting, ranging, deleting, elapses, ticks, finds, deletes, Steps, rest, then,
}
use yellowstone_common.Cache.Cleaning.Invariant.{get_item-Steps}
use yellowstone_common.Cache.Cleaning.Lost.{deletes-set_at}
use native.Mathlib.Decide.{ℕ_discrete}

abbrev first : System ℕ ℕ ℕ
first = record { cache = cache; unswept = cache; clock = 50; janitor = selecting }

-- The item of the key 1 is found too old.
abbrev found : System ℕ ℕ ℕ
found = record first { clock = 51; janitor = deleting 51 1 }

abbrev old_item : Item ℕ ℕ
old_item = record { item_data = 100; err = none; expires = 50 }

held : load ℕ_discrete 1 cache.items ≡ some old_item
unfolding load ℕ_discrete
held = refl

abbrev to_found : Steps ℕ_discrete 0 first found
to_found = then (then (then rest elapses) (ticks refl)) (finds 51 1 old_item refl held refl)

abbrev deleted : System ℕ ℕ ℕ
deleted = record found { cache = delete ℕ_discrete 0 cache 1; janitor = ranging 51 }

abbrev to_deleted : Steps ℕ_discrete 0 first deleted
to_deleted = then to_found (deletes 51 1 refl)

get_item-Steps_example :
    get_item ℕ_discrete 0 51 (delete ℕ_discrete 0 cache 1) 1 ≡ get_item ℕ_discrete 0 51 cache 1
get_item-Steps_example =
    get_item-Steps ℕ_discrete 0 1 cache 50 deleted to_deleted ((((tt, tt), tt), tt), tt)

deletes-set_at_example :
    (t : System ℕ ℕ ℕ) × Steps ℕ_discrete 0 found t
    × (get ℕ_discrete 0 t.clock t.cache 1 ≡ (0, false))
    × (get ℕ_discrete 0 t.clock t.unswept 1 ≡ (7, true))
deletes-set_at_example = deletes-set_at ℕ_discrete 0 found 51 1 7 refl
