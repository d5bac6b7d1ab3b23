-- ===== src/Path/Order.antt =====
-- got_path_cmp as an order: paths sort by their bytes, with the separator before every other byte.
use gameoftrees.Base.{
  ℕ, zero, suc, ◌+◌, ◌≡◌, ◌≢◌, refl, [], ◌∷◌, Bytes, arith, length, ltb, ◌==◌, if◌then◌else◌, min,
  Ordering, Bool-cases, inl, inr, All,
}
use gameoftrees.Path.{
  char_at, slash, skip_slashes, skip_common, skip_redundant, cmp_rest, cmp_from, path_cmp,
}

-- A path as git stores it: no NUL, no separator at either end, no two separators in a row.
abbrev Follows : Bytes → Type 0
Follows [] = ⊥
Follows (c ∷ _) = c ≢ slash

abbrev IsTail : Bytes → Type 0
IsTail [] = Unit
IsTail (c ∷ p) = (c ≢ 0) × (c ≡ slash → Follows p) × IsTail p

abbrev pub IsPlain : Bytes → Type 0
IsPlain p = (char_at p 0 ≢ slash) × IsTail p

IsTail-text : (p : Bytes) → IsTail p → All (λ c. c ≢ 0) p
IsTail-text [] h = tt
IsTail-text (c ∷ p) h = (h.0, IsTail-text p h.2)

pub IsPlain-text : (p : Bytes) → IsPlain p → All (λ c. c ≢ 0) p
IsPlain-text p h = IsTail-text p h.1

-- The rank of a byte: the separator comes first.
abbrev rank : ℕ → ℕ
rank c = if c == slash then 0 else c + 1

-- Byte by byte, a prefix before what it begins.
unfoldable pub lex : Bytes → Bytes → Ordering
lex [] [] = Ordering.eq
lex [] (y ∷ b) = Ordering.lt
lex (x ∷ a) [] = Ordering.gt
lex (x ∷ a) (y ∷ b) =
    if x == y then lex a b else if ltb (rank x) (rank y) then Ordering.lt else Ordering.gt

skip_redundant-IsTail : (p : Bytes) → IsTail p → skip_redundant p ≡ p
unfolding skip_redundant
skip_redundant-IsTail [] h = refl
skip_redundant-IsTail (c ∷ []) h = ground (arith, h.1)
skip_redundant-IsTail (c ∷ d ∷ p) h = ground (arith, h.1)

cmp_rest-end : (y : ℕ) (b : Bytes) → IsTail (y ∷ b) → cmp_rest [] (y ∷ b) ≡ Ordering.lt
unfolding cmp_rest
cmp_rest-end y [] h = ground (arith, h.1)
cmp_rest-end y (d ∷ b) h = ground (arith, h.1)

cmp_rest-begin : (x : ℕ) (a : Bytes) → IsTail (x ∷ a) → cmp_rest (x ∷ a) [] ≡ Ordering.gt
unfolding cmp_rest
cmp_rest-begin x [] h = ground (arith, h.1)
cmp_rest-begin x (d ∷ a) h = ground (arith, h.1)

cmp_rest-differ :
    (x y : ℕ) (a b : Bytes)
    → IsTail (x ∷ a)
    → IsTail (y ∷ b)
    → x ≢ y
    → cmp_rest (x ∷ a) (y ∷ b) ≡ (if ltb (rank x) (rank y) then Ordering.lt else Ordering.gt)
unfolding cmp_rest
cmp_rest-differ x y a b h k ne = ground arith

cmp_from-lex :
    (k : ℕ) (a b : Bytes) (n1 n2 : ℕ)
    → k ≡ min (length a) (length b)
    → IsTail a
    → IsTail b
    → n1 + length b ≡ n2 + length a
    → cmp_from n1 n2 (skip_common k a b) ≡ lex a b
unfolding cmp_from skip_common lex
cmp_from-lex zero [] [] n1 n2 m h k e = ground arith
cmp_from-lex zero [] (y ∷ b) n1 n2 m h k e =
    ground (arith, skip_redundant-IsTail (y ∷ b) k, skip_redundant-IsTail [] tt, cmp_rest-end y b k)
cmp_from-lex zero (x ∷ a) [] n1 n2 m h k e =
    ground
      (arith, skip_redundant-IsTail (x ∷ a) h, skip_redundant-IsTail [] tt, cmp_rest-begin x a h)
cmp_from-lex zero (x ∷ a) (y ∷ b) n1 n2 m h k e = absurd (omega arith)
cmp_from-lex (suc left) [] b n1 n2 m h k e = absurd (omega arith)
cmp_from-lex (suc left) (x ∷ a) [] n1 n2 m h k e = absurd (omega arith)
cmp_from-lex (suc left) (x ∷ a) (y ∷ b) n1 n2 m h k e = elim (Bool-cases (x == y)) [
  | inl same ↦ rw same (cmp_from-lex left a b n1 n2 (omega arith) h.2 k.2 (omega arith))
  | inr differ ↦ ground (
    arith,
    skip_redundant-IsTail (x ∷ a) h,
    skip_redundant-IsTail (y ∷ b) k,
    cmp_rest-differ x y a b h k,
  )
]

skip_slashes-IsPlain : (p : Bytes) (n : ℕ) → char_at p 0 ≢ slash → skip_slashes p n ≡ (p, n)
unfolding skip_slashes
skip_slashes-IsPlain [] n h = refl
skip_slashes-IsPlain (c ∷ p) n h = ground arith

-- On plain paths with their whole lengths got_path_cmp is this order.
pub path_cmp-lex :
    (p q : Bytes) → IsPlain p → IsPlain q → path_cmp p q (length p) (length q) ≡ lex p q
unfolding path_cmp
path_cmp-lex p q h k =
    rw (skip_slashes-IsPlain p (length p) h.0, skip_slashes-IsPlain q (length q) k.0)
      (cmp_from-lex _ p q (length p) (length q) refl h.1 k.1 (omega arith))

pub lex_refl : (a : Bytes) → lex a a ≡ Ordering.eq
unfolding lex
lex_refl [] = refl
lex_refl (x ∷ a) = ground (arith, lex_refl a)

pub lex_eq : (a b : Bytes) → lex a b ≡ Ordering.eq → a ≡ b
unfolding lex
lex_eq [] [] h = refl
lex_eq [] (y ∷ b) h = cc
lex_eq (x ∷ a) [] h = cc
lex_eq (x ∷ a) (y ∷ b) h = ground (arith, lex_eq a b)

pub lex_swap : (a b : Bytes) → lex a b ≡ Ordering.lt → lex b a ≡ Ordering.gt
unfolding lex
lex_swap [] [] h = cc
lex_swap [] (y ∷ b) h = refl
lex_swap (x ∷ a) [] h = cc
lex_swap (x ∷ a) (y ∷ b) h = ground (arith, lex_swap a b)

pub lex_swap_gt : (a b : Bytes) → lex a b ≡ Ordering.gt → lex b a ≡ Ordering.lt
unfolding lex
lex_swap_gt [] [] h = cc
lex_swap_gt [] (y ∷ b) h = cc
lex_swap_gt (x ∷ a) [] h = refl
lex_swap_gt (x ∷ a) (y ∷ b) h = ground (arith, lex_swap_gt a b)

pub lex_trans :
    (a b c : Bytes) → lex a b ≡ Ordering.lt → lex b c ≡ Ordering.lt → lex a c ≡ Ordering.lt
unfolding lex
lex_trans [] [] c h k = cc
lex_trans [] (y ∷ b) [] h k = cc
lex_trans [] (y ∷ b) (z ∷ c) h k = refl
lex_trans (x ∷ a) [] c h k = cc
lex_trans (x ∷ a) (y ∷ b) [] h k = cc
lex_trans (x ∷ a) (y ∷ b) (z ∷ c) h k = ground (arith, lex_trans a b c)

-- On plain paths with their whole lengths got_path_cmp is a strict total order: it returns 0 for
-- equal paths only, swapping the paths negates it, and "before" is transitive.
pub path_cmp_order :
    (p q r : Bytes)
    → IsPlain p
    → IsPlain q
    → IsPlain r
    → (path_cmp p q (length p) (length q) ≡ Ordering.eq → p ≡ q)
      × (path_cmp p p (length p) (length p) ≡ Ordering.eq)
      × (path_cmp p q (length p) (length q) ≡ Ordering.lt
          → path_cmp q p (length q) (length p) ≡ Ordering.gt)
      × (path_cmp p q (length p) (length q) ≡ Ordering.gt
          → path_cmp q p (length q) (length p) ≡ Ordering.lt)
      × (path_cmp p q (length p) (length q) ≡ Ordering.lt
          → path_cmp q r (length q) (length r) ≡ Ordering.lt
          → path_cmp p r (length p) (length r) ≡ Ordering.lt)
path_cmp_order p q r hp hq hr =
    rw
      (
        path_cmp-lex p q hp hq,
        path_cmp-lex p p hp hp,
        path_cmp-lex q p hq hp,
        path_cmp-lex q r hq hr,
        path_cmp-lex p r hp hr,
      )
      (lex_eq p q, lex_refl p, lex_swap p q, lex_swap_gt p q, lex_trans p q r)
