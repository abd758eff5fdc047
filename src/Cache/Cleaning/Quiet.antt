-- ===== src/Cache/Cleaning/Quiet.antt =====
-- What the cleaning is about to delete, what a call stores for, and what an item is seen as later.
use yellowstone_common.Common.{
  ℕ, ◌+◌, ◌≤◌, ◌≡◌, refl, sym, ap, ◌∙◌, arith, Option, none, some, Bool-cases, inl, inr,
}
use yellowstone_common.Cache.{Item, expired}
use yellowstone_common.Cache.Laws.{live, live-later}
use yellowstone_common.Cache.History.{Op, set_at, fail_at, delete_at, sweep_at}
use yellowstone_common.Cache.Cleaning.{Janitor, selecting, ranging, deleting, returned}

-- The key that is about to be deleted.
abbrev pub about_to_delete {ℓ} : {K : Type ℓ} → Janitor K → Option K
about_to_delete selecting = none
about_to_delete (ranging now) = none
about_to_delete (deleting now k) = some k
about_to_delete returned = none

-- The time of the tick, which is not ahead of the clock.
abbrev pub IsPast {ℓ} : {K : Type ℓ} → ℕ → Janitor K → Type 0
IsPast clock selecting = Unit
IsPast clock (ranging now) = now ≤ clock
IsPast clock (deleting now k) = now ≤ clock
IsPast clock returned = Unit

-- The key that a call stores an item for.
abbrev pub stores {ℓ} : {K V E : Type ℓ} → Op K V E → Option K
stores (set_at t k v ttl) = some k
stores (fail_at t k e) = some k
stores (delete_at t k) = none
stores (sweep_at t) = none

pub IsPast-later {ℓ} :
    {K : Type ℓ} (clock : ℕ) (j : Janitor K) → IsPast clock j → IsPast (clock + 1) j
IsPast-later clock selecting h = tt
IsPast-later clock (ranging now) h = omega arith
IsPast-later clock (deleting now j) h = omega arith
IsPast-later clock returned h = tt

-- Two items that look the same look the same later.
pub live-congruent {ℓ} :
    {V E : Type ℓ} (a b : ℕ) (o p : Option (Item V E))
    → a ≤ b
    → live a o ≡ live a p
    → live b o ≡ live b p
live-congruent a b none none h e = refl
live-congruent a b none (some it) h e = sym (live-later a b (some it) h (sym e))
live-congruent a b (some it) none h e = live-later a b (some it) h e
live-congruent a b (some it) (some jt) h e = elim (Bool-cases (expired a it)) [
  | inl old ↦
      let gone : live a (some it) ≡ none = rw old in
      live-later a b (some it) h gone ∙ sym (live-later a b (some jt) h (sym e ∙ gone))
  | inr fresh ↦
      let found : live a (some it) ≡ some it = rw fresh in
      elim (Bool-cases (expired a jt)) [
        | inl old' ↦
            let gone : live a (some jt) ≡ none = rw old' in absurd (ground (arith, found, gone, e))
        | inr fresh' ↦
            let found' : live a (some jt) ≡ some jt = rw fresh' in
            ap (live b) (sym found ∙ e ∙ found')
      ]
]
