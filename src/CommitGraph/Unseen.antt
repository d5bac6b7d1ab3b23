-- ===== src/CommitGraph/Unseen.antt =====
-- The commits of a list that are not yet nodes.
use gameoftrees.Base.{
  ℕ, suc, ◌≤◌, ◌<◌, ◌≡◌, sym, ap, ◌∙◌, inl, inr, Bool, true, false, List, [], ◌∷◌, Bytes, arith,
  length, if◌then◌else◌, Bool-cases,
}
use gameoftrees.CommitGraph.Sets.{IsIn}

abbrev pub unseen : (Bytes → Bool) → List Bytes → ℕ
unseen seen [] = 0
unseen seen (q ∷ l) = let rest = unseen seen l in if seen q then rest else suc rest

seen_already :
    (f g : Bytes → Bool)
    → ((q : Bytes) → f q ≡ true → g q ≡ true)
    → (q : Bytes) → g q ≡ false
    → f q ≡ false
seen_already f g h q n = elim (Bool-cases (f q)) [
  | inr e ↦ e
  | inl e ↦ let clash : true ≡ false = sym (h q e) ∙ n in absurd cc
]

unseen_le :
    (f g : Bytes → Bool) (l : List Bytes)
    → ((q : Bytes) → f q ≡ true → g q ≡ true)
    → unseen g l ≤ unseen f l
unseen_le f g [] h = omega arith
unseen_le f g (q ∷ l) h = elim (Bool-cases (g q)) [
  | inr n ↦ rw (unseen, n, seen_already f g h q n) (omega (arith, unseen_le f g l h))
  | inl n ↦ elim (Bool-cases (f q)) [
    | inl e ↦ rw (unseen, n, e) (unseen_le f g l h)
    | inr e ↦ rw (unseen, n, e) (omega (arith, unseen_le f g l h))
  ]
]

-- One of the list has been seen.
pub unseen_lt :
    (f g : Bytes → Bool) (l : List Bytes) (q : Bytes)
    → ((q : Bytes) → f q ≡ true → g q ≡ true)
    → IsIn q l
    → f q ≡ false
    → g q ≡ true
    → unseen g l < unseen f l
unseen_lt f g [] q h i n y = absurd i
unseen_lt f g (x ∷ l) q h (inl e) n y =
    let n' : f x ≡ false = ap f (sym e) ∙ n in
    let y' : g x ≡ true = ap g (sym e) ∙ y in rw (unseen, n', y') (omega (arith, unseen_le f g l h))
unseen_lt f g (x ∷ l) q h (inr i) n y = elim (Bool-cases (g x)) [
  | inr m ↦ rw (unseen, m, seen_already f g h x m) (omega (arith, unseen_lt f g l q h i n y))
  | inl m ↦ elim (Bool-cases (f x)) [
    | inl e ↦ rw (unseen, m, e) (unseen_lt f g l q h i n y)
    | inr e ↦ rw (unseen, m, e) (omega (arith, unseen_lt f g l q h i n y))
  ]
]

pub unseen-length : (seen : Bytes → Bool) (l : List Bytes) → unseen seen l ≤ length l
unseen-length seen [] = omega arith
unseen-length seen (q ∷ l) = elim (Bool-cases (seen q)) [
  | inl e ↦ rw (unseen, e) (omega (arith, unseen-length seen l))
  | inr e ↦ rw (unseen, e) (omega (arith, unseen-length seen l))
]
