-- ===== src/Cache/Runs.antt =====
-- Concrete runs of the cache, and its theorems at concrete inputs.
use yellowstone_common.Common.{
  ℕ, ◌≡◌, refl, arith, ltb, if◌then◌else◌, true, false, none, some, List, [], ◌∷◌,
}
use yellowstone_common.Common.Int.{pos}
use yellowstone_common.Cache.{
  Options, Cache, value, failed, with_ttl, with_negative_ttl, with_cacheable_error, new, load,
  get_item, get, set_with_ttl, get_or_load, flight,
}
use yellowstone_common.Cache.Laws.{Unique, live, outlived, get-set_with_ttl}
use yellowstone_common.Cache.History.{
  Op, set_at, fail_at, delete_at, sweep_at, run, ideal, get_item-run,
}
use native.Mathlib.Decide.{ℕ_discrete}
use mathlib.Core.Logic.{ite}

-- Keys and errors are numbers here, and error 404 is cacheable.
abbrev options : List (Options ℕ → Options ℕ)
options =
    with_ttl (pos 10)
    ∷ with_negative_ttl (pos 5)
    ∷ with_cacheable_error (λ e. if ltb e 405 then ltb 403 e else false)
    ∷ []

abbrev pub cache : Cache ℕ ℕ ℕ
cache = record {
  items = (1, record { item_data = 100; err = none; expires = 50 }) ∷ [];
  ttl = pos 10;
  negative_ttl = pos 5;
  is_cacheable_error = some (λ e. if ltb e 405 then ltb 403 e else false);
  closed = false;
}

cache-new : new options ≡ some (record cache { items = [] })
unfolding new
cache-new = refl

negative_hit :
    (get_or_load ℕ_discrete 0
      (λ v. false)
      34
      34
      34
      (get_or_load ℕ_discrete 0 (λ v. false) 30 30 30 cache 7 (failed 9 404)).0
      7
      (value 1)).1
    ≡ some (0, some 404)
unfolding get_or_load get_item ℕ_discrete flight
negative_hit = refl

cache_Unique : Unique ℕ_discrete cache.items
unfolding load
cache_Unique = (refl, tt)

pub missing : get_item ℕ_discrete 0 30 cache 7 ≡ none
unfolding get_item load ℕ_discrete
missing = refl

get-set_with_ttl_example :
    get ℕ_discrete 0 41 (set_with_ttl ℕ_discrete 0 30 cache 2 200 (pos 10)) 2
    ≡ ite
        (ℕ_discrete 2 2)
        (if outlived 30 (pos 10) 41 then (0, false) else (200, true))
        (get ℕ_discrete 0 41 cache 2)
get-set_with_ttl_example = get-set_with_ttl ℕ_discrete 0 30 41 cache 2 2 200 (pos 10)

abbrev ops : List (Op ℕ ℕ ℕ)
ops = set_at 30 2 200 (pos 10) ∷ sweep_at 35 ∷ fail_at 36 3 404 ∷ delete_at 37 1 ∷ sweep_at 40 ∷ []

get_item-run_example :
    (get_item ℕ_discrete 0 40 (run ℕ_discrete 0 ops cache) 2
      ≡ live 40 (ideal ℕ_discrete 0 (pos 5) 2 ops (load ℕ_discrete 2 cache.items)))
    × Unique ℕ_discrete (run ℕ_discrete 0 ops cache).items
get_item-run_example = get_item-run ℕ_discrete 0 40 ops cache 2 cache_Unique (omega arith)
