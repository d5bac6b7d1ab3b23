-- ===== src/CommitGraph/Traversal.antt =====
-- A traversal from its start on, whose end is shown.
use gameoftrees.Base.{
  ℕ, ◌<◌, ◌≡◌, refl, ap, sym, ◌∙◌, inl, inr, true, false, List, [], Bytes, bytes_eq, bytes_eq_iff,
  Option, none, some, All, arith, length, Bool-cases,
}
use gameoftrees.Error.{Result, ok, err, trap, ◌>>=◌, Yields, Yields-bind, Yields-self}
use gameoftrees.CommitGraph.{
  Repository, Graph, is_root_dir, graph_open, open_branch, fetch_loop, started, needs_more,
  iter_start,
}
use gameoftrees.CommitGraph.Sets.{IdSets, IsIn, IsDistinct}
use gameoftrees.CommitGraph.Steps.{is_node}
use gameoftrees.CommitGraph.Loop.{IsGraph}
use gameoftrees.CommitGraph.Bound.{IsHistory, IsBound}
use gameoftrees.CommitGraph.Once.{iter_start-IsGraph, opened_lem}
use gameoftrees.CommitGraph.Ends.{fetch_loop-HasEnded}
use gameoftrees.CommitGraph.Unseen.{unseen-length}
use gameoftrees.CommitGraph.Walk.{begun, traversal, IsWalk, walk-IsWalk, has}

module _ (sets : IdSets) (repo : Repository) (commits : List Bytes)
    (history : IsHistory repo commits) where
  module _ (cancel : Graph sets repo → Result (Unit {0})) where
    opened-IsBound :
        (path id : Bytes)
        → IsIn id commits
        → Yields
            (IsBound sets repo commits history)
            (open_branch sets repo (graph_open sets repo path false) id)
    unfolding open_branch graph_open
    opened-IsBound path id i =
        let (w, no_ids) = sets.empty_law in
        Yields-bind (λ s. sets.add sets.empty id ≡ ok s) (IsBound sets repo commits history)
          (sets.add sets.empty id)
          (λ s. ok (record (graph_open sets repo path false) { open_branches = s }))
          (Yields-self (λ s. sets.add sets.empty id ≡ ok s) (sets.add sets.empty id) (λ s e. e))
          (λ s e.
            let (w', c) = sets.add_law sets.empty id s w (no_ids id) e in
            (
              λ q o. elim (Bool-cases (bytes_eq q id)) [
                | inl same ↦ rw ((bytes_eq_iff q id).0 same) i
                | inr other ↦ absurd (
                    let none' : sets.contains s q ≡ false = c q ∙ rw other (no_ids q) in
                    let clash : true ≡ false = sym o ∙ none' in cc)
              ],
              λ q n. absurd (let clash : true ≡ false = sym n ∙ no_ids q in cc),
            ))

    -- What the start leaves, if it leaves a graph.
    abbrev IsStarted : Option (Result (Graph sets repo)) → Type 0
    IsStarted o =
        (r : Result (Graph sets repo)) × (o ≡ some r) × Yields (IsBound sets repo commits history) r

    started-IsBound :
        (g : Graph sets repo)
        → IsBound sets repo commits history g
        → Yields (IsBound sets repo commits history) (started sets repo cancel g)
    started-IsBound g b = elim (Bool-cases (needs_more sets repo cancel true g.iter_list)) [
      | inr e ↦ rw e b
      | inl e ↦ elim (Bool-cases (is_root_dir g.path)) [
        | inl p ↦ rw (e, p) tt
        | inr p ↦ rw (e, p) tt
      ]
    ]

    searched-IsStarted :
        (fuel : ℕ) (r : Result (Graph sets repo))
        → length commits < fuel
        → Yields (IsGraph sets repo) r
        → Yields (IsBound sets repo commits history) r
        → IsStarted (elim r [
          | err e ↦ some (err e)
          | trap z ↦ some (trap z)
          | ok g ↦ elim (fetch_loop sets repo cancel fuel true g) [
            | none ↦ none
            | some s ↦ some (s >>= started sets repo cancel)
          ]
        ])
    searched-IsStarted fuel (err e) f h b = (err e, refl, tt)
    searched-IsStarted fuel (trap z) f h b = (trap z, refl, tt)
    searched-IsStarted fuel (ok g) f h b =
        let (r, e, y) =
          fetch_loop-HasEnded sets repo commits history cancel fuel true g h b
            (omega (arith, f, unseen-length (is_node sets repo g) commits)) in
        (
          r >>= started sets repo cancel,
          rw e refl,
          Yields-bind (IsBound sets repo commits history) (IsBound sets repo commits history) r
              (started sets repo cancel) y started-IsBound,
        )

    iter_start-IsStarted :
        (fuel : ℕ) (path id : Bytes)
        → is_root_dir path ≡ true
        → IsIn id commits
        → length commits < fuel
        → IsStarted (iter_start sets repo cancel fuel (graph_open sets repo path false) id)
    unfolding iter_start graph_open
    iter_start-IsStarted fuel path id p i f =
        searched-IsStarted fuel (open_branch sets repo (graph_open sets repo path false) id) f
          (opened_lem sets repo cancel path id p) (opened-IsBound path id i)

    begun_lem :
        (fuel calls : ℕ) (path id : Bytes) (r : Result (Graph sets repo))
        → is_root_dir path ≡ true
        → length commits < fuel
        → length commits < calls
        → iter_start sets repo cancel fuel (graph_open sets repo path false) id ≡ some r
        → Yields (IsBound sets repo commits history) r
        → IsWalk sets repo commits history cancel [] (begun sets repo cancel fuel calls (some r))
    begun_lem fuel calls path id (err e) p f c s b = ([], refl, tt, tt, tt)
    begun_lem fuel calls path id (trap z) p f c s b = ([], refl, tt, tt, tt)
    begun_lem fuel calls path id (ok g) p f c s b =
        walk-IsWalk sets repo commits history cancel fuel calls [] g f
          (iter_start-IsGraph sets repo cancel fuel path id g p s) b tt
          (omega (arith, c, unseen-length (has []) commits))

    -- A traversal of the whole history of the root directory ends. It starts with a commit of a
    -- list that has the parents of all its commits that open: got_commit_graph_iter_start on a new
    -- graph and each call of got_commit_graph_iter_next end within as many rounds as the list has
    -- commits, and one, and within as many calls one returns an error, as at the end. The commits
    -- that were passed up to then are of the list, and each of them was passed once.
    pub traversal_ends :
        (fuel calls : ℕ) (path id : Bytes)
        → is_root_dir path ≡ true
        → IsIn id commits
        → length commits < fuel
        → length commits < calls
        → (l : List Bytes) × (traversal sets repo cancel fuel calls path id ≡ some l)
          × IsDistinct l
          × All (λ q. IsIn q commits) l
    traversal_ends fuel calls path id p i f c =
        let (r, s, y) = iter_start-IsStarted fuel path id p i f in
        let (l, e, d, all, apart) = begun_lem fuel calls path id r p f c s y in
        (l, ap (begun sets repo cancel fuel calls) s ∙ e, d, all)
