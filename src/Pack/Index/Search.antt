-- ===== src/Pack/Index/Search.antt =====
-- The binary search of a pack index finds an identifier exactly if the sorted table has it.
use gameoftrees.Base.{
  ℕ, zero, suc, ◌+◌, ◌-◌, ◌/◌, ◌%◌, ◌^◌, ◌≤◌, ◌<◌, ◌≡◌, ◌≢◌, ◌⊎◌, inl, inr, refl, List, [], ◌∷◌,
  Bytes, Option, none, some, arith, leb, ◌==◌, length, get_elem?, Ordering, Bool-cases, memcmp,
  memcmp_eq, memcmp_refl, memcmp_swap, memcmp_swap_gt, memcmp_trans, Ordering-cases,
}
use native.Mathlib.Decide.{dec_lt}
use gameoftrees.Error.{Result, ok, ◌>>=◌}
use gameoftrees.Pack.Index.{
  PackIdx, entry_at, int_of, middle, search_loop, first_byte, get_object_idx,
}

-- Strictly ascending.
abbrev pub IsAscending : List Bytes → Type 0
IsAscending ids =
    (i j : ℕ) (a b : Bytes)
    → i < j
    → get_elem? ids i ≡ some a
    → get_elem? ids j ≡ some b
    → memcmp a b ≡ Ordering.lt

-- The place of the identifier, if the table has it.
abbrev pub IsPlace : List Bytes → Bytes → Result (Option ℕ) → Type 0
IsPlace ids id r =
    ((i : ℕ) × (r ≡ ok (some i)) × (get_elem? ids i ≡ some id))
    ⊎ ((r ≡ ok none) × ((i : ℕ) → get_elem? ids i ≢ some id))

pub entry_at-get_elem? {ℓ} :
    {A : Type ℓ} (l : List A) (i : ℕ)
    → i < length l
    → (x : A) × (entry_at l i ≡ ok x) × (get_elem? l i ≡ some x)
entry_at-get_elem? [] i h = absurd (omega arith)
entry_at-get_elem? (x ∷ l) zero h = (x, refl, refl)
entry_at-get_elem? (x ∷ l) (suc i) h = entry_at-get_elem? l i (omega arith)

middle-in_range :
    (ids : List Bytes) (left right : ℕ)
    → 2 ^ 31 ≤ left
    → left ≤ right
    → right < length ids + 2 ^ 31
    → length ids ≤ 2 ^ 30
    → (i : ℕ) × (oid : Bytes) × (middle ids left right ≡ ok (i, oid))
      × (get_elem? ids i ≡ some oid)
      × (left ≤ i + 2 ^ 31)
      × (i + 2 ^ 31 ≤ right)
unfolding middle
middle-in_range ids left right h le k n =
    let i : ℕ = (left + right - 2 ^ 32) / 2 in
    let (oid, at, get) = entry_at-get_elem? ids i (omega arith) in
    (i, oid, ground (arith, at), get, omega arith, omega arith)

module _ (ids : List Bytes) (id : Bytes) (sorted : IsAscending ids)
    (few : length ids ≤ 2 ^ 30) where
  before :
      (i j : ℕ) (a b : Bytes)
      → i ≤ j
      → get_elem? ids i ≡ some a
      → get_elem? ids j ≡ some b
      → memcmp id b ≡ Ordering.gt
      → memcmp id a ≡ Ordering.gt
  before i j a b le ha hb h = elim (dec_lt i j) [
    | yes lt ↦
        memcmp_swap a id (memcmp_trans a b id (sorted i j a b lt ha hb) (memcmp_swap_gt id b h))
    | no ge ↦ let same : i ≡ j = omega arith in let eq : a ≡ b = cc in rw eq h
  ]

  after :
      (i j : ℕ) (a b : Bytes)
      → i ≤ j
      → get_elem? ids i ≡ some a
      → get_elem? ids j ≡ some b
      → memcmp id a ≡ Ordering.lt
      → memcmp id b ≡ Ordering.lt
  after i j a b le ha hb h = elim (dec_lt i j) [
    | yes lt ↦ memcmp_trans id a b h (sorted i j a b lt ha hb)
    | no ge ↦ let same : i ≡ j = omega arith in let eq : b ≡ a = cc in rw eq h
  ]

  abbrev pub IsBelow : ℕ → Type 0
  IsBelow left =
      (i : ℕ) (a : Bytes) → i + 2 ^ 31 < left → get_elem? ids i ≡ some a → memcmp id a ≡ Ordering.gt

  abbrev pub IsAbove : ℕ → Type 0
  IsAbove right =
      (i : ℕ) (a : Bytes)
      → right < i + 2 ^ 31
      → get_elem? ids i ≡ some a
      → memcmp id a ≡ Ordering.lt

  absent :
      (left right : ℕ)
      → right < left
      → IsBelow left
      → IsAbove right
      → (i : ℕ) → get_elem? ids i ≢ some id
  absent left right h low high i g = elim (dec_lt (i + 2 ^ 31) left) [
    | yes lt ↦ cc (memcmp_refl id, low i id lt g)
    | no ge ↦ cc (memcmp_refl id, high i id (omega arith) g)
  ]

  pub search_loop-IsPlace :
      (fuel left right : ℕ)
      → 2 ^ 31 ≤ left
      → 2 ^ 31 ≤ right + 1
      → right < length ids + 2 ^ 31
      → right + 1 < left + fuel
      → IsBelow left
      → IsAbove right
      → IsPlace ids id (search_loop fuel ids id left right)
  unfolding search_loop
  search_loop-IsPlace zero left right lo lo' hi f low high =
      inr (refl, absent left right (omega arith) low high)
  search_loop-IsPlace (suc fuel) left right lo lo' hi f low high =
      elim (Bool-cases (leb left right)) [
        | inr empty ↦ rw empty (inr (refl, absent left right (ground arith) low high))
        | inl more ↦
            let (i, oid, at, get, ge, le) =
              middle-in_range ids left right lo (ground arith) hi few in
            elim (Ordering-cases (memcmp id oid)) [
              | inr (inl same) ↦
                  rw (more, at, ◌>>=◌, same)
                    (inl (i, refl, (let eq : id ≡ oid = memcmp_eq id oid same in rw eq get)))
              | inr (inr above) ↦
                  rw (more, at, ◌>>=◌, above)
                    (search_loop-IsPlace fuel (i + 1 + 2 ^ 31) right (omega arith) lo' hi
                      (omega arith) (λ j a lt g. before j i a oid (omega arith) g get above) high)
              | inl below ↦
                  rw (more, at, ◌>>=◌, below)
                    (search_loop-IsPlace fuel left (i + 2 ^ 31 - 1) lo (omega arith) (omega arith)
                      (omega arith) low (λ j a lt g. after i j oid a (omega arith) get g below))
            ]
      ]

-- Each entry of the fanout table counts the identifiers that begin with a byte up to its place.
abbrev pub IsFanout : List ℕ → List Bytes → Type 0
IsFanout table ids =
    (get_elem? table 0xff ≡ some (length ids))
    × ((b : ℕ)
        → b < 0xff
        → (n : ℕ) × (get_elem? table b ≡ some n)
          × (n ≤ length ids)
          × ((i : ℕ) (a : Bytes) → i < n → get_elem? ids i ≡ some a → first_byte a ≤ b))

entry_at_of {ℓ} :
    {A : Type ℓ} (l : List A) (i : ℕ) (x : A) → get_elem? l i ≡ some x → entry_at l i ≡ ok x
entry_at_of [] i x h = cc
entry_at_of (y ∷ l) zero x h = let same : y ≡ x = cc in rw same refl
entry_at_of (y ∷ l) (suc i) x h = entry_at_of l i x h

get_elem?-bounds : (l : List Bytes) (i : ℕ) (a : Bytes) → get_elem? l i ≡ some a → i < length l
get_elem?-bounds [] i a h = cc
get_elem?-bounds (x ∷ l) zero a h = omega arith
get_elem?-bounds (x ∷ l) (suc i) a h = omega (arith, get_elem?-bounds l i a h)

first_byte-memcmp : (a b : Bytes) → first_byte a < first_byte b → memcmp b a ≡ Ordering.gt
unfolding memcmp
first_byte-memcmp a [] h = absurd (omega arith)
first_byte-memcmp [] (y ∷ b) h = refl
first_byte-memcmp (x ∷ a) (y ∷ b) h = ground arith

-- got_packidx_get_object_idx, in an index of at most 2 ^ 30 objects with ascending identifiers and
-- a fanout table that counts them, returns a place at which the identifier stands, and -1 exactly
-- if the table does not have it. It ends, reads inside the tables, and no `int` overflows.
pub get_object_idx_lem :
    (packidx : PackIdx) (id : Bytes)
    → IsAscending packidx.sorted_ids
    → length packidx.sorted_ids ≤ 2 ^ 30
    → IsFanout packidx.fanout_table packidx.sorted_ids
    → first_byte id < 256
    → IsPlace packidx.sorted_ids id (get_object_idx packidx id)
unfolding get_object_idx
get_object_idx_lem packidx id sorted few (total, counts) byte =
    let ids : List Bytes = packidx.sorted_ids in
    let right : ℕ = int_of ((length ids + (2 ^ 32 - 1)) % 2 ^ 32) in
    let right_is : right + 1 ≡ length ids + 2 ^ 31 = omega arith in
    let high : IsAbove ids id sorted few right =
      λ i a lt g. absurd (omega (arith, get_elem?-bounds ids i a g)) in
    elim (Bool-cases (first_byte id == 0)) [
      | inl zero_byte ↦
          rw (entry_at_of packidx.fanout_table 0xff (length ids) total, zero_byte)
            (search_loop-IsPlace ids id sorted few (suc (length ids)) (int_of 0) right (omega arith)
              (omega arith) (omega arith) (omega arith) (λ i a lt g. absurd (omega arith)) high)
      | inr nonzero ↦
          let (n, at, le, low) = counts (first_byte id - 1) (ground arith) in
          rw
            (
              entry_at_of packidx.fanout_table 0xff (length ids) total,
              nonzero,
              entry_at_of packidx.fanout_table (first_byte id - 1) n at,
            )
            (search_loop-IsPlace ids id sorted few (suc (length ids)) (int_of n) right (omega arith)
              (omega arith) (omega arith) (omega arith)
              (λ i a lt g. first_byte-memcmp a id (ground (arith, low i a (omega arith) g))) high)
    ]
