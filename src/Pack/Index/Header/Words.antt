-- ===== src/Pack/Index/Header/Words.antt =====
-- The words and groups of bytes of a pack index's tables.
use gameoftrees.Base.{
  ℕ, zero, suc, ◌+◌, ◌*◌, ◌^◌, ◌<◌, ◌≡◌, refl, ap, ◌∙◌, List, [], ◌∷◌, Bytes, map, some, ltb,
  length, take, drop, arith, length-take, length-drop, All, get_elem?, Bool-cases, inl, inr,
}
use gameoftrees.Error.{Ensures}
use gameoftrees.FileIndex.Codec.{be_fold}
use gameoftrees.Pack.Index.{entry_at, fanout_loop}
use gameoftrees.Pack.Index.Header.{groups, words}

pub length-groups : (count n : ℕ) (b : Bytes) → length (groups count n b) ≡ count
unfolding groups
length-groups zero n b = refl
length-groups (suc count) n b = ap suc (length-groups count n (drop n b))

pub All-length-groups :
    (count n : ℕ) (b : Bytes) → length b ≡ count * n → All (λ g. length g ≡ n) (groups count n b)
unfolding groups
All-length-groups zero n b h = tt
All-length-groups (suc count) n b h = (
  grind (arith, length-take {0} n b),
  All-length-groups count n (drop n b) (grind (arith, length-drop {0} n b)),
)

pub length-map : (f : Bytes → ℕ) (l : List Bytes) → length (map f l) ≡ length l
length-map f [] = refl
length-map f (x ∷ l) = ap suc (length-map f l)

pub length-words : (count n : ℕ) (b : Bytes) → length (words count n b) ≡ count
unfolding words
length-words count n b = length-map (be_fold 0) (groups count n b) ∙ length-groups count n b

abbrev pub IsByte : ℕ → Type 0
IsByte b = b < 256

pub All-take : (n : ℕ) (b : Bytes) → All IsByte b → All IsByte (take n b)
All-take zero b h = tt
All-take (suc n) [] h = tt
All-take (suc n) (x ∷ b) h = (h.0, All-take n b h.1)

pub All-drop : (n : ℕ) (b : Bytes) → All IsByte b → All IsByte (drop n b)
All-drop zero b h = h
All-drop (suc n) [] h = tt
All-drop (suc n) (x ∷ b) h = All-drop n b h.1

pub be_fold_four :
    (w x y z : ℕ) → be_fold 0 (w ∷ x ∷ y ∷ z ∷ []) ≡ (((0 * 256 + w) * 256 + x) * 256 + y) * 256 + z
unfolding be_fold
be_fold_four w x y z = refl

pub word_bound : (b : Bytes) → length b ≡ 4 → All IsByte b → be_fold 0 b < 2 ^ 32
word_bound [] h k = absurd (omega arith)
word_bound (w ∷ []) h k = absurd (omega arith)
word_bound (w ∷ x ∷ []) h k = absurd (omega arith)
word_bound (w ∷ x ∷ y ∷ []) h k = absurd (omega arith)
word_bound (w ∷ x ∷ y ∷ z ∷ []) h k = rw (be_fold_four w x y z) (omega arith)
word_bound (w ∷ x ∷ y ∷ z ∷ u ∷ b) h k = absurd (omega arith)

pub All-words :
    (count : ℕ) (b : Bytes)
    → length b ≡ count * 4
    → All IsByte b
    → All (λ w. w < 2 ^ 32) (words count 4 b)
unfolding words groups
All-words zero b h k = tt
All-words (suc count) b h k = (
  word_bound (take 4 b) (omega (arith, length-take {0} 4 b)) (All-take 4 b k),
  All-words count (drop 4 b) (omega (arith, length-drop {0} 4 b)) (All-drop 4 b k),
)

-- A table with more entries than rounds is read inside.
pub fanout_loop-Ensures :
    (k : ℕ) (table : List ℕ) → k < length table → Ensures (λ u. Unit {0}) (fanout_loop k table)
unfolding fanout_loop
fanout_loop-Ensures zero table h = tt
fanout_loop-Ensures (suc k) [] h = absurd (omega arith)
fanout_loop-Ensures (suc k) (a ∷ []) h = absurd (omega arith)
fanout_loop-Ensures (suc k) (a ∷ b ∷ table) h = elim (Bool-cases (ltb b a)) [
  | inl less ↦ rw less tt
  | inr le ↦ rw le (fanout_loop-Ensures k (b ∷ table) (omega arith))
]

pub entry_at-Ensures :
    (P : ℕ → Type 0) (l : List ℕ) (i : ℕ)
    → i < length l
    → All P l
    → Ensures (λ x. P x × (get_elem? l i ≡ some x)) (entry_at l i)
entry_at-Ensures P [] i h k = absurd (omega arith)
entry_at-Ensures P (x ∷ l) zero h k = (k.0, refl)
entry_at-Ensures P (x ∷ l) (suc i) h k = entry_at-Ensures P l i (omega arith) k.1
