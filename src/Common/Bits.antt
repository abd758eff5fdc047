-- ===== src/Common/Bits.antt =====
-- Masks and disjoint fields as arithmetic, at every width, from the digit recursion.
use Prim.Native.Nat.{
  ℕ, zero, suc, ◌+◌, ◌-◌, ◌*◌, ◌/◌, ◌%◌, ◌^◌, ◌≤◌, ◌<◌, min, max, bit_and, bit_or, digits,
  bit_and-bitwise, bit_or-bitwise,
}
use mathlib.Core.Path.{◌≡◌, refl, sym, ap}
use native.Mathlib.Omega.{arith}
use mathlib.Core.Bool.{Bool, true, ◌&&◌}
use yellowstone_common.Common.Tests.{◌==◌}
use native.Mathlib.Nat.{pow-suc, pow-succ', one-le-pow, div-add-mod', div-div-eq-div-mul}

-- Over a small range two functions are compared by evaluation.
unfoldable pub equal_below : (ℕ → ℕ) → (ℕ → ℕ) → ℕ → Bool
equal_below f g zero = true
equal_below f g (suc n) = f n == g n && equal_below f g n

pub equal_below_sound :
    (f g : ℕ → ℕ) (n : ℕ) → equal_below f g n ≡ true → (i : ℕ) → i < n → f i ≡ g i
unfolding equal_below
equal_below_sound f g zero e i h = absurd (omega arith)
equal_below_sound f g (suc n) e i h = ground (arith, equal_below_sound f g n (ground arith) i)

-- The fuel of the digit recursion is irrelevant once it covers the first argument.
more_fuel :
    (rest : ℕ → ℕ) (op : ℕ → ℕ → ℕ) (n k a b : ℕ)
    → a ≤ n
    → a ≤ k
    → digits rest op n a b ≡ digits rest op k a b
more_fuel rest op n k zero b p q = both n k
  where
    both : (n k : ℕ) → digits rest op n 0 b ≡ digits rest op k 0 b
    both zero zero = refl
    both zero (suc k) = refl
    both (suc n) zero = refl
    both (suc n) (suc k) = refl
more_fuel rest op zero k (suc a) b p q = absurd (omega arith)
more_fuel rest op (suc n) zero (suc a) b p q = absurd (omega arith)
more_fuel rest op (suc n) (suc k) (suc a) b p q =
    rw (more_fuel rest op n k (suc a / 2) (b / 2) (omega arith) (omega arith))

-- The lowest digit, with no fuel.
pub bit_and_low : (a b : ℕ) → bit_and a b ≡ bit_and (a / 2) (b / 2) * 2 + min (a % 2) (b % 2)
bit_and_low zero b = omega (arith, bit_and-bitwise 0 b, bit_and-bitwise 0 (b / 2))
bit_and_low (suc a) b = omega (
  arith,
  bit_and-bitwise (suc a) b,
  bit_and-bitwise (suc a / 2) (b / 2),
  more_fuel (λ _. 0) min a (suc a / 2) (suc a / 2) (b / 2) (omega arith) (omega arith),
)

pub bit_or_low : (a b : ℕ) → bit_or a b ≡ bit_or (a / 2) (b / 2) * 2 + max (a % 2) (b % 2)
bit_or_low zero b = omega (arith, bit_or-bitwise 0 b, bit_or-bitwise 0 (b / 2))
bit_or_low (suc a) b = omega (
  arith,
  bit_or-bitwise (suc a) b,
  bit_or-bitwise (suc a / 2) (b / 2),
  more_fuel (λ y. y) max a (suc a / 2) (suc a / 2) (b / 2) (omega arith) (omega arith),
)

zero_bit_or : (b : ℕ) → bit_or 0 b ≡ b
zero_bit_or b = bit_or-bitwise 0 b

bit_and_zero_below : (n a : ℕ) → a ≤ n → bit_and a 0 ≡ 0
bit_and_zero_below n zero h = refl
bit_and_zero_below zero (suc a) h = absurd (omega arith)
bit_and_zero_below (suc n) (suc a) h =
    omega (arith, bit_and_low (suc a) 0, bit_and_zero_below n (suc a / 2) (omega arith))

double : (q k : ℕ) → q * 2 ^ suc k ≡ 2 * (q * 2 ^ k)
double q k = omega (arith, ap (λ (t : ℕ). q * t) (pow-suc 2 k))

-- `r | q<<k` is a sum when `r` fits `k` bits.
pub bit_or_fields : (k r q : ℕ) → r < 2 ^ k → bit_or r (q * 2 ^ k) ≡ r + q * 2 ^ k
bit_or_fields zero r q h = ground (arith, zero_bit_or q)
bit_or_fields (suc k) r q h = ground (
  arith,
  bit_or_low r (q * 2 ^ suc k),
  double q k,
  pow-suc 2 k,
  bit_or_fields k (r / 2) q (omega arith),
)

bit_or_comm_below : (n a b : ℕ) → a + b ≤ n → bit_or a b ≡ bit_or b a
bit_or_comm_below zero zero zero h = refl
bit_or_comm_below zero zero (suc b) h = absurd (omega arith)
bit_or_comm_below zero (suc a) b h = absurd (omega arith)
bit_or_comm_below (suc n) a b h =
    omega (arith, bit_or_low a b, bit_or_low b a, bit_or_comm_below n (a / 2) (b / 2) (omega arith))

pub bit_or_comm : (a b : ℕ) → bit_or a b ≡ bit_or b a
bit_or_comm a b = bit_or_comm_below (a + b) a b (omega arith)

-- The remainder by `2 ^ (k + 1)`, by halves.
mod_halves : (k a : ℕ) → a % 2 ^ suc k ≡ a / 2 % 2 ^ k * 2 + a % 2
mod_halves k a = omega (
  arith,
  div-add-mod' a (2 ^ suc k),
  div-add-mod' (a / 2) (2 ^ k),
  double (a / 2 / 2 ^ k) k,
  ap (λ (t : ℕ). t * 2 ^ suc k) quotient,
)
  where
    quotient : a / 2 ^ suc k ≡ a / 2 / 2 ^ k
    quotient = rw (pow-succ' 2 k) (sym (div-div-eq-div-mul a 2 (2 ^ k)))

-- `a & (1<<k - 1)` is a remainder.
pub bit_and_mask : (k a : ℕ) → bit_and a (2 ^ k - 1) ≡ a % 2 ^ k
bit_and_mask zero a = ground (arith, bit_and_zero_below a a)
bit_and_mask (suc k) a = ground (
  arith,
  bit_and_low a (2 ^ suc k - 1),
  pow-suc 2 k,
  one-le-pow k 2,
  bit_and_mask k (a / 2),
  mod_halves k a,
)
