-- ===== src/Base/Memcmp.antt =====
-- memcmp(3): byte strings in the order of their bytes.
use gameoftrees.Base.Tests.{Bytes}
use Prim.Native.Nat.{compare, Ordering}
use mathlib.Core.Path.{◌≡◌, refl}
use mathlib.Core.Logic.{◌⊎◌, inl, inr}
use mathlib.Core.List.{[], ◌∷◌}
use native.Mathlib.Omega.{arith}

-- -1, 0 and 1 are `lt`, `eq` and `gt`.
unfoldable pub memcmp : Bytes → Bytes → Ordering
memcmp [] [] = Ordering.eq
memcmp [] (y ∷ b) = Ordering.lt
memcmp (x ∷ a) [] = Ordering.gt
memcmp (x ∷ a) (y ∷ b) = elim (compare x y) [
  | Ordering.lt ↦ Ordering.lt
  | Ordering.eq ↦ memcmp a b
  | Ordering.gt ↦ Ordering.gt
]

pub memcmp_refl : (a : Bytes) → memcmp a a ≡ Ordering.eq
unfolding memcmp
memcmp_refl [] = refl
memcmp_refl (x ∷ a) = ground (arith, memcmp_refl a)

pub memcmp_eq : (a b : Bytes) → memcmp a b ≡ Ordering.eq → a ≡ b
unfolding memcmp
memcmp_eq [] [] h = refl
memcmp_eq [] (y ∷ b) h = cc
memcmp_eq (x ∷ a) [] h = cc
memcmp_eq (x ∷ a) (y ∷ b) h = ground (arith, memcmp_eq a b)

pub memcmp_swap : (a b : Bytes) → memcmp a b ≡ Ordering.lt → memcmp b a ≡ Ordering.gt
unfolding memcmp
memcmp_swap [] [] h = cc
memcmp_swap [] (y ∷ b) h = refl
memcmp_swap (x ∷ a) [] h = cc
memcmp_swap (x ∷ a) (y ∷ b) h = ground (arith, memcmp_swap a b)

pub memcmp_swap_gt : (a b : Bytes) → memcmp a b ≡ Ordering.gt → memcmp b a ≡ Ordering.lt
unfolding memcmp
memcmp_swap_gt [] [] h = cc
memcmp_swap_gt [] (y ∷ b) h = cc
memcmp_swap_gt (x ∷ a) [] h = refl
memcmp_swap_gt (x ∷ a) (y ∷ b) h = ground (arith, memcmp_swap_gt a b)

pub memcmp_trans :
    (a b c : Bytes) → memcmp a b ≡ Ordering.lt → memcmp b c ≡ Ordering.lt → memcmp a c ≡ Ordering.lt
unfolding memcmp
memcmp_trans [] [] c h k = cc
memcmp_trans [] (y ∷ b) [] h k = cc
memcmp_trans [] (y ∷ b) (z ∷ c) h k = refl
memcmp_trans (x ∷ a) [] c h k = cc
memcmp_trans (x ∷ a) (y ∷ b) [] h k = cc
memcmp_trans (x ∷ a) (y ∷ b) (z ∷ c) h k = ground (arith, memcmp_trans a b c)

pub Ordering-cases : (o : Ordering) → (o ≡ Ordering.lt) ⊎ (o ≡ Ordering.eq) ⊎ (o ≡ Ordering.gt)
Ordering-cases Ordering.lt = inl refl
Ordering-cases Ordering.eq = inr (inl refl)
Ordering-cases Ordering.gt = inr (inr refl)
