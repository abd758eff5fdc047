-- ===== src/Common/Compare.antt =====
-- `bytes.Equal` and `bytes.HasPrefix`.
use mathlib.Core.Path.{◌≡◌, refl}
use mathlib.Core.List.{[], ◌∷◌, ◌++◌}
use mathlib.Core.Bool.{Bool, true, false, ◌&&◌}
use mathlib.Core.Logic.{◌≢◌}
use native.Mathlib.Omega.{arith}
use yellowstone_common.Common.Lists.{Bytes}
use yellowstone_common.Common.Tests.{◌==◌}

abbrev pub equal : Bytes → Bytes → Bool
equal [] [] = true
equal [] (b ∷ ys) = false
equal (a ∷ xs) [] = false
equal (a ∷ xs) (b ∷ ys) = (a == b) && equal xs ys

-- `bytes.HasPrefix(s, prefix)`
abbrev pub has_prefix : Bytes → Bytes → Bool
has_prefix s [] = true
has_prefix [] (b ∷ ys) = false
has_prefix (a ∷ xs) (b ∷ ys) = (a == b) && has_prefix xs ys

pub equal_self : (a : Bytes) → equal a a ≡ true
equal_self [] = refl
equal_self (a ∷ xs) = ground (arith, equal_self xs)

pub equal→≡ : (a b : Bytes) → equal a b ≡ true → a ≡ b
equal→≡ [] [] e = refl
equal→≡ [] (b ∷ ys) e = absurd (ground arith)
equal→≡ (a ∷ xs) [] e = absurd (ground arith)
equal→≡ (a ∷ xs) (b ∷ ys) e = ground (arith, equal→≡ xs ys)

pub equal_ne : (a b : Bytes) → a ≢ b → equal a b ≡ false
equal_ne a b ne = ground (arith, equal→≡ a b)

pub has_prefix-append : (p a : Bytes) → has_prefix (p ++ a) p ≡ true
has_prefix-append [] a = refl
has_prefix-append (x ∷ p) a = ground (arith, has_prefix-append p a)

-- A prefix of a longer key, under a front that both share.
pub has_prefix_front : (t a p : Bytes) → has_prefix (t ++ a) (t ++ p) ≡ has_prefix a p
has_prefix_front [] a p = refl
has_prefix_front (x ∷ t) a p = ground (arith, has_prefix_front t a p)

pub equal_front : (t a b : Bytes) → equal (t ++ a) (t ++ b) ≡ equal a b
equal_front [] a b = refl
equal_front (x ∷ t) a b = ground (arith, equal_front t a b)

pub has_prefix_self : (k : Bytes) → has_prefix k k ≡ true
has_prefix_self [] = refl
has_prefix_self (x ∷ k) = ground (arith, has_prefix_self k)

-- Keys of which one does not extend the other are not the same.
pub equal_apart : (j k : Bytes) → has_prefix j k ≡ false → equal j k ≡ false
equal_apart [] [] e = cc e
equal_apart [] (y ∷ k) e = refl
equal_apart (x ∷ j) [] e = refl
equal_apart (x ∷ j) (y ∷ k) e = ground (arith, equal_apart j k)

pub equal_apart_back : (j k : Bytes) → has_prefix k j ≡ false → equal j k ≡ false
equal_apart_back [] [] e = cc e
equal_apart_back [] (y ∷ k) e = refl
equal_apart_back (x ∷ j) [] e = refl
equal_apart_back (x ∷ j) (y ∷ k) e = ground (arith, equal_apart_back j k)

-- A key under a prefix is not one that is not.
pub equal_outside :
    (j k p : Bytes) → has_prefix j p ≡ false → has_prefix k p ≡ true → equal j k ≡ false
equal_outside j k [] e h = cc e
equal_outside [] [] (z ∷ p) e h = cc h
equal_outside [] (y ∷ k) (z ∷ p) e h = refl
equal_outside (x ∷ j) [] (z ∷ p) e h = refl
equal_outside (x ∷ j) (y ∷ k) (z ∷ p) e h = ground (arith, equal_outside j k p)
