-- ===== src/Base/Bits/Digits.antt =====
-- One equation for the lowest binary digit of `bit_and` and of `bit_or`.
use Prim.Native.Nat.{
  ℕ, zero, suc, ◌+◌, ◌*◌, ◌/◌, ◌%◌, ◌≤◌, min, max, digits, bit_and, bit_or, bit_and-bitwise,
  bit_or-bitwise,
}
use mathlib.Core.Path.{◌≡◌, refl, ap}
use native.Mathlib.Omega.{arith}

module _ (z : ℕ → ℕ) (f : ℕ → ℕ → ℕ) where
  -- The count of digits to go does not matter once it covers the first number.
  count_irrelevant : (a b n : ℕ) → a ≤ n → (m : ℕ) → a ≤ m → digits z f n a b ≡ digits z f m a b
  count_irrelevant a b zero h zero g = refl
  count_irrelevant zero b zero h (suc m) g = refl
  count_irrelevant zero b (suc n) h zero g = refl
  count_irrelevant zero b (suc n) h (suc m) g = refl
  count_irrelevant (suc a) b zero h m g = absurd (omega arith)
  count_irrelevant (suc a) b (suc n) h zero g = absurd (omega arith)
  count_irrelevant (suc a) b (suc n) h (suc m) g =
      ap (λ (t : ℕ). t * 2 + f (suc a % 2) (b % 2))
        (count_irrelevant (suc a / 2) (b / 2) n (omega arith) m (omega arith))

pub and_step : (a b : ℕ) → bit_and a b ≡ bit_and (a / 2) (b / 2) * 2 + min (a % 2) (b % 2)
and_step zero b = omega (arith, bit_and-bitwise 0 b, bit_and-bitwise 0 (b / 2))
and_step (suc a) b = omega (
  arith,
  bit_and-bitwise (suc a) b,
  bit_and-bitwise (suc a / 2) (b / 2),
  count_irrelevant (λ y. 0) min (suc a / 2) (b / 2) a (omega arith) (suc a / 2) (omega arith),
)

pub or_step : (a b : ℕ) → bit_or a b ≡ bit_or (a / 2) (b / 2) * 2 + max (a % 2) (b % 2)
or_step zero b = omega (arith, bit_or-bitwise 0 b, bit_or-bitwise 0 (b / 2))
or_step (suc a) b = omega (
  arith,
  bit_or-bitwise (suc a) b,
  bit_or-bitwise (suc a / 2) (b / 2),
  count_irrelevant (λ y. y) max (suc a / 2) (b / 2) a (omega arith) (suc a / 2) (omega arith),
)
