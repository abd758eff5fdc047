-- ===== src/Common/Sorting.antt =====
-- Sets of texts, and `sort.Strings`.
use mathlib.Core.Path.{◌≡◌, refl, ◌∙◌}
use mathlib.Core.List.{List, [], ◌∷◌}
use mathlib.Core.Bool.{Bool, true, false, ◌||◌}
use mathlib.Core.Logic.{inl, inr}
use native.Mathlib.Omega.{arith}
use yellowstone_common.Common.Lists.{Bytes}
use yellowstone_common.Common.Tests.{ltb, if◌then◌else◌, Bool-cases}
use yellowstone_common.Common.Compare.{equal}

-- A key of a `map[string]struct{}`.
abbrev pub member : List Bytes → Bytes → Bool
member [] s = false
member (t ∷ ts) s = equal t s || member ts s

-- The order of the strings of Go.
abbrev pub less_equal : Bytes → Bytes → Bool
less_equal [] t = true
less_equal (a ∷ s) [] = false
less_equal (a ∷ s) (b ∷ t) = if ltb a b then true else if ltb b a then false else less_equal s t

unfoldable pub insert : Bytes → List Bytes → List Bytes
insert s [] = s ∷ []
insert s (t ∷ ts) = let rest = insert s ts in if less_equal s t then s ∷ t ∷ ts else t ∷ rest

unfoldable pub sort_strings : List Bytes → List Bytes
unfolding insert
sort_strings [] = []
sort_strings (s ∷ ts) = insert s (sort_strings ts)

-- Ascending.
abbrev pub Sorted : List Bytes → Type 0
Sorted [] = Unit
Sorted (s ∷ []) = Unit
Sorted (s ∷ t ∷ ts) = (less_equal s t ≡ true) × Sorted (t ∷ ts)

less_equal_total : (s t : Bytes) → less_equal s t ≡ false → less_equal t s ≡ true
less_equal_total [] t e = ground arith
less_equal_total (a ∷ s) [] e = refl
less_equal_total (a ∷ s) (b ∷ t) e = ground (arith, less_equal_total s t)

insert-Sorted : (s : Bytes) (ts : List Bytes) → Sorted ts → Sorted (insert s ts)
unfolding insert
insert-Sorted s [] h = tt
insert-Sorted s (t ∷ []) h = elim (Bool-cases (less_equal s t)) [
  | inl e ↦ ground (arith, e)
  | inr e ↦ ground (arith, e, less_equal_total s t e)
]
insert-Sorted s (t ∷ u ∷ ts) h = elim (Bool-cases (less_equal s t)) [
  | inl e ↦ ground (arith, e, h)
  | inr e ↦ ground (arith, e, h, less_equal_total s t e, insert-Sorted s (u ∷ ts) h.1)
]

pub sort_strings-Sorted : (ts : List Bytes) → Sorted (sort_strings ts)
unfolding sort_strings
sort_strings-Sorted [] = tt
sort_strings-Sorted (s ∷ ts) = insert-Sorted s (sort_strings ts) (sort_strings-Sorted ts)

member-insert :
    (s : Bytes) (ts : List Bytes) (u : Bytes) → member (insert s ts) u ≡ (equal s u || member ts u)
unfolding insert
member-insert s [] u = refl
member-insert s (t ∷ ts) u = ground (arith, member-insert s ts u)

pub member-sort_strings : (ts : List Bytes) (u : Bytes) → member (sort_strings ts) u ≡ member ts u
unfolding sort_strings
member-sort_strings [] u = refl
member-sort_strings (s ∷ ts) u =
    ground (arith, member-insert s (sort_strings ts) u, member-sort_strings ts u)

-- No text twice.
abbrev pub Once : List Bytes → Type 0
Once [] = Unit
Once (s ∷ ts) = (member ts s ≡ false) × Once ts

equal-swap : (s t : Bytes) → equal t s ≡ false → equal s t ≡ false
equal-swap [] [] e = e
equal-swap [] (b ∷ t) e = refl
equal-swap (a ∷ s) [] e = refl
equal-swap (a ∷ s) (b ∷ t) e = ground (arith, equal-swap s t)

insert-Once : (s : Bytes) (ts : List Bytes) → member ts s ≡ false → Once ts → Once (insert s ts)
unfolding insert
insert-Once s [] e h = (refl, tt)
insert-Once s (t ∷ ts) e (fresh, h) = elim (Bool-cases (less_equal s t)) [
  | inl first ↦ ground (arith, first, e, fresh, h)
  | inr later ↦ ground (
    arith,
    later,
    e,
    fresh,
    h,
    member-insert s ts t,
    equal-swap s t,
    insert-Once s ts (ground (arith, e)) h,
  )
]

pub sort_strings-Once : (ts : List Bytes) → Once ts → Once (sort_strings ts)
unfolding sort_strings
sort_strings-Once [] h = tt
sort_strings-Once (s ∷ ts) (fresh, h) =
    insert-Once s (sort_strings ts) (member-sort_strings ts s ∙ fresh) (sort_strings-Once ts h)
