-- ===== src/CommitGraph/Walk.antt =====
-- A traversal from its start to its end: got_commit_graph_iter_start, and got_commit_graph_iter_next
-- until it returns an error, as GOT_ERR_ITER_COMPLETED is one.
use gameoftrees.Base.{
  ℕ, zero, suc, ◌<◌, ◌≡◌, ◌≢◌, refl, ap, sym, inl, inr, Bool, true, false, ◌||◌, List, [], ◌∷◌,
  Bytes, bytes_eq, bytes_eq_iff, Option, none, some, All, All-map, arith, length, Bool-cases,
}
use gameoftrees.Error.{Result, ok, err, trap, Yields}
use gameoftrees.CommitGraph.{Repository, Graph, graph_open, iter_start, iter_next}
use gameoftrees.CommitGraph.Sets.{IdSets, IsIn, IsDistinct}
use gameoftrees.CommitGraph.Loop.{IsGraph, IsGone}
use gameoftrees.CommitGraph.Bound.{IsHistory, IsBound}
use gameoftrees.CommitGraph.Once.{iter_next-IsGone}
use gameoftrees.CommitGraph.Ends.{iter_next_ends}
use gameoftrees.CommitGraph.Unseen.{unseen, unseen_lt}

abbrev pub has : List Bytes → Bytes → Bool
has [] q = false
has (p ∷ passed) q = bytes_eq p q || has passed q

has_none : (passed : List Bytes) (q : Bytes) → All (λ p. q ≢ p) passed → has passed q ≡ false
has_none [] q h = refl
has_none (p ∷ passed) q h = elim (Bool-cases (bytes_eq p q)) [
  | inl e ↦ absurd (h.0 (sym ((bytes_eq_iff p q).0 e)))
  | inr e ↦ rw e (has_none passed q h.1)
]

has_more :
    (p : Bytes) (passed : List Bytes) (q : Bytes) → has passed q ≡ true → has (p ∷ passed) q ≡ true
has_more p passed q h = elim (Bool-cases (bytes_eq p q)) [ inl e ↦ rw e refl | inr e ↦ rw e h ]

has_itself : (p : Bytes) (passed : List Bytes) → has (p ∷ passed) p ≡ true
has_itself p passed = rw ((bytes_eq_iff p p).1 refl) refl

abbrev pub more : Bytes → Option (List Bytes) → Option (List Bytes)
more id none = none
more id (some l) = some (id ∷ l)

module _ (sets : IdSets) (repo : Repository) where
  abbrev pub onward :
      (Graph sets repo → Option (List Bytes))
      → Option (Result (Bytes × Graph sets repo))
      → Option (List Bytes)
  onward rest none = none
  onward rest (some (err e)) = some []
  onward rest (some (trap z)) = some []
  onward rest (some (ok (id, g))) = more id (rest g)

  module _ (cancel : Graph sets repo → Result (Unit {0})) where
    -- The commits that are passed from a graph on; `none` where a call needs more rounds than
    -- `fuel`, or no error is met within `calls` calls.
    unfoldable pub walk : ℕ → ℕ → Graph sets repo → Option (List Bytes)
    walk fuel zero g = none
    walk fuel (suc calls) g =
        onward (λ (g' : Graph sets repo). walk fuel calls g') (iter_next sets repo cancel fuel g)

    abbrev pub begun : ℕ → ℕ → Option (Result (Graph sets repo)) → Option (List Bytes)
    begun fuel calls none = none
    begun fuel calls (some (err e)) = some []
    begun fuel calls (some (trap z)) = some []
    begun fuel calls (some (ok g)) = walk fuel calls g

    -- A whole traversal, on a new graph.
    abbrev pub traversal : ℕ → ℕ → Bytes → Bytes → Option (List Bytes)
    traversal fuel calls path id =
        begun fuel calls (iter_start sets repo cancel fuel (graph_open sets repo path false) id)

module _ (sets : IdSets) (repo : Repository) (commits : List Bytes)
    (history : IsHistory repo commits) where
  module _ (cancel : Graph sets repo → Result (Unit {0})) where
    -- A walk that ends, and passes commits of the history once each, and none that has been passed.
    abbrev pub IsWalk : List Bytes → Option (List Bytes) → Type 0
    IsWalk passed o =
        (l : List Bytes) × (o ≡ some l)
        × IsDistinct l
        × All (λ q. IsIn q commits) l
        × All (λ q. All (λ p. q ≢ p) passed) l

    IsWalk-more :
        (id : Bytes) (passed : List Bytes) (o : Option (List Bytes))
        → All (λ p. id ≢ p) passed
        → IsIn id commits
        → IsWalk (id ∷ passed) o
        → IsWalk passed (more id o)
    IsWalk-more id passed o new i (l, e, d, all, apart) = (
      id ∷ l,
      ap (more id) e,
      (All-map (λ q. All (λ p. q ≢ p) (id ∷ passed)) (λ q. q ≢ id) l (λ q a. a.0) apart, d),
      (i, all),
      (
        new,
        All-map (λ q. All (λ p. q ≢ p) (id ∷ passed)) (λ q. All (λ p. q ≢ p) passed) l (λ q a. a.1)
            apart,
      ),
    )

    -- The walk goes on from what a call passes.
    onward-IsWalk :
        (fuel calls : ℕ) (passed : List Bytes) (g : Graph sets repo)
        (r : Result (Bytes × Graph sets repo))
        → ((id : Bytes) (g' : Graph sets repo)
            → IsGraph sets repo g'
            → IsBound sets repo commits history g'
            → All (λ q. IsGone sets repo q g') (id ∷ passed)
            → unseen (has (id ∷ passed)) commits < calls
            → IsWalk (id ∷ passed) (walk sets repo cancel fuel calls g'))
        → iter_next sets repo cancel fuel g ≡ some r
        → Yields (λ s. IsBound sets repo commits history s.1) r
        → IsGraph sets repo g
        → All (λ q. IsGone sets repo q g) passed
        → unseen (has passed) commits < suc calls
        → IsWalk passed (
            onward sets repo
              (λ (g' : Graph sets repo). walk sets repo cancel fuel calls g')
              (some r))
    onward-IsWalk fuel calls passed g (err e) ih n b h gone c = ([], refl, tt, tt, tt)
    onward-IsWalk fuel calls passed g (trap z) ih n b h gone c = ([], refl, tt, tt, tt)
    onward-IsWalk fuel calls passed g (ok (id, g')) ih n b h gone c =
        let (whole, itself, k) = iter_next-IsGone sets repo cancel fuel g id g' h n in
        let i : IsIn id commits = b.1 id itself.0 in
        let new : All (λ p. id ≢ p) passed =
          All-map (λ q. IsGone sets repo q g) (λ p. id ≢ p) passed (λ q x. (k q x).0) gone in
        let fewer : unseen (has (id ∷ passed)) commits < unseen (has passed) commits =
          unseen_lt (has passed) (has (id ∷ passed)) commits id (has_more id passed) i
            (has_none passed id new) (has_itself id passed) in
        IsWalk-more id passed (walk sets repo cancel fuel calls g') new i (
          ih id g' whole b
            (
              itself,
              All-map (λ q. IsGone sets repo q g) (λ q. IsGone sets repo q g') passed
                  (λ q x. (k q x).1) gone,
            )
            (omega (arith, fewer, c)))

    pub walk-IsWalk :
        (fuel calls : ℕ) (passed : List Bytes) (g : Graph sets repo)
        → length commits < fuel
        → IsGraph sets repo g
        → IsBound sets repo commits history g
        → All (λ q. IsGone sets repo q g) passed
        → unseen (has passed) commits < calls
        → IsWalk passed (walk sets repo cancel fuel calls g)
    unfolding walk
    walk-IsWalk fuel zero passed g f h b gone c = absurd (omega (arith, c))
    walk-IsWalk fuel (suc calls) passed g f h b gone c =
        let (r, e, y) = iter_next_ends sets repo commits history cancel fuel g h b f in
        rw e (
          onward-IsWalk fuel calls passed g r
            (λ id g' h' b' gone' c'. walk-IsWalk fuel calls (id ∷ passed) g' f h' b' gone' c') e y h
            gone c)
