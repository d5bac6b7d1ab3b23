-- ===== src/Base/Bits.antt =====
-- Masks and shifts at variables: `&` and `|` act on two parts of a word separately, a mask of
-- ones takes a remainder, and `|` of disjoint fields is a sum.
mod Digits
use Digits.{and_step, or_step}
use Prim.Native.Nat.{ℕ, zero, suc, ◌+◌, ◌-◌, ◌*◌, ◌/◌, ◌%◌, ◌^◌, ◌≤◌, ◌<◌, bit_and, bit_or}
use Prim.Native.Nat.{bit_and-bitwise, bit_or-bitwise}
use mathlib.Core.Path.{◌≡◌, refl, ap}
use native.Mathlib.Omega.{arith}
use native.Mathlib.Nat.{pow-suc, one-le-pow, div-add-mod'}

double_shift : (a k : ℕ) → a * 2 ^ suc k ≡ 2 * (a * 2 ^ k)
double_shift a k = omega (arith, ap (λ (t : ℕ). a * t) (pow-suc 2 k))

and_zero_below : (n a : ℕ) → a ≤ n → bit_and a 0 ≡ 0
and_zero_below n zero h = refl
and_zero_below zero (suc a) h = absurd (omega arith)
and_zero_below (suc n) (suc a) h =
    omega (arith, and_step (suc a) 0, and_zero_below n (suc a / 2) (omega arith))

pub and_zero : (a : ℕ) → bit_and a 0 ≡ 0
and_zero a = and_zero_below a a (omega arith)

or_zero_below : (n a : ℕ) → a ≤ n → bit_or a 0 ≡ a
or_zero_below n zero h = refl
or_zero_below zero (suc a) h = absurd (omega arith)
or_zero_below (suc n) (suc a) h =
    omega (arith, or_step (suc a) 0, or_zero_below n (suc a / 2) (omega arith))

pub or_zero : (a : ℕ) → bit_or a 0 ≡ a
or_zero a = or_zero_below a a (omega arith)

pub zero_or : (a : ℕ) → bit_or 0 a ≡ a
zero_or a = bit_or-bitwise 0 a

pub zero_and : (a : ℕ) → bit_and 0 a ≡ 0
zero_and a = bit_and-bitwise 0 a

-- `&` and `|` on a high and a low part.
pub and_parts :
    (k a r b s : ℕ)
    → r < 2 ^ k
    → s < 2 ^ k
    → bit_and (a * 2 ^ k + r) (b * 2 ^ k + s) ≡ bit_and a b * 2 ^ k + bit_and r s
and_parts zero a r b s hr hs = ground (arith, zero_and 0)
and_parts (suc k) a r b s hr hs = ground (
  arith,
  double_shift a k,
  double_shift b k,
  double_shift (bit_and a b) k,
  pow-suc 2 k,
  and_step (a * 2 ^ suc k + r) (b * 2 ^ suc k + s),
  and_step r s,
  and_parts k a (r / 2) b (s / 2) (omega arith) (omega arith),
)

pub or_parts :
    (k a r b s : ℕ)
    → r < 2 ^ k
    → s < 2 ^ k
    → bit_or (a * 2 ^ k + r) (b * 2 ^ k + s) ≡ bit_or a b * 2 ^ k + bit_or r s
or_parts zero a r b s hr hs = ground (arith, zero_or 0)
or_parts (suc k) a r b s hr hs = ground (
  arith,
  double_shift a k,
  double_shift b k,
  double_shift (bit_or a b) k,
  pow-suc 2 k,
  or_step (a * 2 ^ suc k + r) (b * 2 ^ suc k + s),
  or_step r s,
  or_parts k a (r / 2) b (s / 2) (omega arith) (omega arith),
)

-- `x | (y << k)` is a sum where `x` fits `k` bits.
pub or_shifted : (k x y : ℕ) → x < 2 ^ k → bit_or x (y * 2 ^ k) ≡ x + y * 2 ^ k
or_shifted k x y h =
    ground (arith, or_parts k 0 x y 0 h (one-le-pow k 2 (omega arith)), or_zero x, zero_or y)

and_ones_below : (k r : ℕ) → r < 2 ^ k → bit_and r (2 ^ k - 1) ≡ r
and_ones_below zero r h = ground (arith, and_zero r)
and_ones_below (suc k) r h = ground (
  arith,
  and_step r (2 ^ suc k - 1),
  pow-suc 2 k,
  and_ones_below k (r / 2) (omega (arith, pow-suc 2 k)),
)

-- A mask of `k` ones takes the remainder by `2 ^ k`.
pub and_ones : (k x : ℕ) → bit_and x (2 ^ k - 1) ≡ x % 2 ^ k
and_ones k x = ground (
  arith,
  one-le-pow k 2 (omega arith),
  div-add-mod' x (2 ^ k),
  and_parts k (x / 2 ^ k) (x % 2 ^ k) 0 (2 ^ k - 1),
  and_zero (x / 2 ^ k),
  and_ones_below k (x % 2 ^ k),
)

-- A mask over the bits from `k` on.
pub and_high : (k x m : ℕ) → bit_and x (m * 2 ^ k) ≡ bit_and (x / 2 ^ k) m * 2 ^ k
and_high k x m = ground (
  arith,
  one-le-pow k 2 (omega arith),
  div-add-mod' x (2 ^ k),
  and_parts k (x / 2 ^ k) (x % 2 ^ k) m 0,
  and_zero (x % 2 ^ k),
)

-- The single bit `k`.
pub and_bit : (k x : ℕ) → bit_and x (2 ^ k) ≡ x / 2 ^ k % 2 * 2 ^ k
and_bit k x = ground (arith, and_high k x 1, and_ones 1 (x / 2 ^ k))

-- A field of `w` bits at bit `k` cleared in a word of `k + w + t` bits.
pub and_clear :
    (k w t x : ℕ)
    → bit_and x ((2 ^ t - 1) * 2 ^ w * 2 ^ k + (2 ^ k - 1))
      ≡ x / 2 ^ k / 2 ^ w % 2 ^ t * 2 ^ w * 2 ^ k + x % 2 ^ k
and_clear k w t x = ground (
  arith,
  one-le-pow k 2 (omega arith),
  div-add-mod' x (2 ^ k),
  and_parts k (x / 2 ^ k) (x % 2 ^ k) ((2 ^ t - 1) * 2 ^ w) (2 ^ k - 1),
  and_high w (x / 2 ^ k) (2 ^ t - 1),
  and_ones t (x / 2 ^ k / 2 ^ w),
  and_ones_below k (x % 2 ^ k),
)

-- A cleared field filled in.
pub or_field :
    (k w hi lo s : ℕ)
    → lo < 2 ^ k
    → s < 2 ^ w
    → bit_or (hi * 2 ^ w * 2 ^ k + lo) (s * 2 ^ k) ≡ (hi * 2 ^ w + s) * 2 ^ k + lo
or_field k w hi lo s h g = ground (
  arith,
  one-le-pow k 2 (omega arith),
  one-le-pow w 2 (omega arith),
  or_parts k (hi * 2 ^ w) lo s 0,
  or_parts w hi 0 0 s,
  or_zero hi,
  zero_or s,
  or_zero lo,
)

or_one_below : (r : ℕ) → r < 2 → bit_or r 1 ≡ 1
or_one_below zero h = refl
or_one_below (suc zero) h = refl
or_one_below (suc (suc r)) h = absurd (omega arith)

or_one : (a : ℕ) → bit_or a 1 ≡ a / 2 * 2 + 1
or_one a =
    ground
      (arith, or_parts 1 (a / 2) (a % 2) 0 1, or_zero (a / 2), or_one_below (a % 2) (omega arith))

-- The single bit `k` set.
pub or_bit : (k x : ℕ) → bit_or x (2 ^ k) ≡ (x / 2 ^ k / 2 * 2 + 1) * 2 ^ k + x % 2 ^ k
or_bit k x = ground (
  arith,
  one-le-pow k 2 (omega arith),
  div-add-mod' x (2 ^ k),
  or_parts k (x / 2 ^ k) (x % 2 ^ k) 1 0,
  or_one (x / 2 ^ k),
  or_zero (x % 2 ^ k),
)
