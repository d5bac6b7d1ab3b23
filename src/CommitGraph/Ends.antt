-- ===== src/CommitGraph/Ends.antt =====
-- The traversal of a finite history ends.
use gameoftrees.Base.{
  ℕ, zero, suc, ◌<◌, ◌≡◌, refl, ap, sym, ◌∙◌, inl, inr, Bool, true, false, ◌&&◌, not, List, [], ◌∷◌,
  Bytes, Option, some, All, All-map, arith, length, ◌==◌, Bool-cases,
}
use gameoftrees.Error.{
  iter_completed, Result, ok, err, trap, ◌>>=◌, Yields, Yields-bind, Yields-mono, Yields-both,
}
use gameoftrees.CommitGraph.{
  GraphNode, Repository, HistoryCommit, is_root_dir, Graph, add_branch_tips, tips_loop,
  fetch_commits_from_open_branches, needs_more, fetch_loop, take_first, iter_next,
}
use gameoftrees.CommitGraph.Sets.{IdSets, IsIn}
use gameoftrees.CommitGraph.Steps.{is_open, is_node}
use gameoftrees.CommitGraph.Tips.{IsTipped, add_branch_tips-IsTipped}
use gameoftrees.CommitGraph.Loop.{IsGraph}
use gameoftrees.CommitGraph.Bound.{
  IsHistory, IsIn-All, IsBound, IsBounded, HasParents, tips_parents, first_of, tips-IsBounded,
}
use gameoftrees.CommitGraph.Fetch.{IsNext, fetch_lem}
use gameoftrees.CommitGraph.Unseen.{unseen, unseen_lt, unseen-length}

module _ (sets : IdSets) (repo : Repository) (commits : List Bytes)
    (history : IsHistory repo commits) where
  module _ (cancel : Graph sets repo → Result (Unit {0})) where
    -- A round of the loop that fetches leaves fewer commits to be seen.
    abbrev IsNearer : Graph sets repo → Graph sets repo → Type 0
    IsNearer g g' =
        IsBound sets repo commits history g'
        × (unseen (is_node sets repo g') commits < unseen (is_node sets repo g) commits)

    nearer_lem :
        (g g1 g' : Graph sets repo) (tips : List (Bytes × HistoryCommit))
        → IsGraph sets repo g
        → IsBound sets repo commits history g
        → (sets.num_elements g.open_branches == 0) ≡ false
        → IsTipped sets repo g (sets.ids g.open_branches) (tips, g1)
        → IsBounded sets repo commits history g1.node_ids g'
        → IsNearer g g'
    nearer_lem g g1 g' tips h b n t k =
        let (distinct, known, all) = sets.ids_law g.open_branches h.open_set in
        let (q, i) =
          first_of sets repo commits history (sets.ids g.open_branches)
            (sets.num_elements g.open_branches) (sets.num_law g.open_branches h.open_set) n in
        let o : is_open sets repo g q ≡ true =
          IsIn-All q (sets.ids g.open_branches) (λ x. is_open sets repo g x ≡ true) i known in
        (
          k.bound,
          unseen_lt (is_node sets repo g) (is_node sets repo g') commits q
              (λ x p. ap (λ (s : sets.Set). sets.contains s x) k.node_ids ∙ t.kept x p) (b.0 q o)
              (h.apart q o)
              (ap (λ (s : sets.Set). sets.contains s q) k.node_ids
                ∙ IsIn-All q (sets.ids g.open_branches) (λ x. is_node sets repo g1 x ≡ true) i
                    t.added),
        )

    fetch-IsNearer :
        (g : Graph sets repo)
        → IsGraph sets repo g
        → IsBound sets repo commits history g
        → (sets.num_elements g.open_branches == 0) ≡ false
        → Yields (IsNearer g) (fetch_commits_from_open_branches sets repo cancel g)
    unfolding fetch_commits_from_open_branches
    fetch-IsNearer g h b n =
        let (distinct, known, all) = sets.ids_law g.open_branches h.open_set in
        let ids = sets.ids g.open_branches in
        let fresh : All (λ q. is_node sets repo g q ≡ false) ids =
          All-map (λ q. is_open sets repo g q ≡ true) (λ q. is_node sets repo g q ≡ false) ids
            h.apart known in
        let inside : All (λ q. IsIn q commits) ids =
          All-map (λ q. is_open sets repo g q ≡ true) (λ q. IsIn q commits) ids b.0 known in
        rw n (
          Yields-bind
            (λ r. IsTipped sets repo g ids r × All (HasParents sets repo commits history) r.0)
            (IsNearer g) (add_branch_tips sets repo g ids)
            (λ (tips, g1). tips_loop sets repo cancel g1 tips)
            (Yields-both (IsTipped sets repo g ids)
              (λ r. All (HasParents sets repo commits history) r.0)
              (add_branch_tips sets repo g ids)
              (add_branch_tips-IsTipped sets repo g ids h.node_set distinct fresh)
              (tips_parents sets repo commits history g ids inside))
            (λ (tips, g1) (t, p).
              Yields-mono (IsBounded sets repo commits history g1.node_ids) (IsNearer g)
                (tips_loop sets repo cancel g1 tips) (λ g' k. nearer_lem g g1 g' tips h b n t k)
                (tips-IsBounded sets repo commits history cancel g1.node_ids g1 tips
                  (record {
                    node_ids = refl;
                    open_set = rw t.branches h.open_set;
                    full = t.parents ∙ h.full;
                    at_root = ap is_root_dir t.path ∙ h.at_root;
                    bound = (
                      λ q o. b.0 q (ap (λ (s : sets.Set). sets.contains s q) (sym t.branches) ∙ o),
                      λ q n'. elim (t.origin q n') [
                        | inl old ↦ b.1 q old
                        | inr i ↦ IsIn-All q ids (λ x. IsIn x commits) i inside
                      ],
                    );
                  })
                  p)))

    -- A result, which leaves the open branches and the nodes in the history.
    abbrev pub HasEnded : Option (Result (Graph sets repo)) → Type 0
    HasEnded o =
        (r : Result (Graph sets repo)) × (o ≡ some r) × Yields (IsBound sets repo commits history) r

    ended_lem :
        (fuel : ℕ) (starting : Bool) (g : Graph sets repo) (r : Result (Graph sets repo))
        → ((g' : Graph sets repo)
            → IsGraph sets repo g'
            → IsNearer g g'
            → HasEnded (fetch_loop sets repo cancel fuel starting g'))
        → Yields (λ g'. IsNext sets repo g g' × IsNearer g g') r
        → HasEnded (elim r [
          | ok g' ↦ fetch_loop sets repo cancel fuel starting g'
          | err e ↦ some (err e)
          | trap z ↦ some (trap z)
        ])
    ended_lem fuel starting g (err e) ih h = (err e, refl, tt)
    ended_lem fuel starting g (trap z) ih h = (trap z, refl, tt)
    ended_lem fuel starting g (ok g') ih (k, n) = ih g' k.0 n

    both_true : (a b : Bool) → (a && not b) ≡ true → b ≡ false
    both_true true true h = absurd cc
    both_true true false h = refl
    both_true false b h = absurd cc

    pub fetch_loop-HasEnded :
        (fuel : ℕ) (starting : Bool) (g : Graph sets repo)
        → IsGraph sets repo g
        → IsBound sets repo commits history g
        → unseen (is_node sets repo g) commits < fuel
        → HasEnded (fetch_loop sets repo cancel fuel starting g)
    unfolding fetch_loop
    fetch_loop-HasEnded zero starting g h b f = absurd (omega arith)
    fetch_loop-HasEnded (suc fuel) starting g h b f =
        elim (Bool-cases (
          needs_more sets repo cancel starting g.iter_list
          && not (sets.num_elements g.open_branches == 0))) [
            | inr e ↦ rw e (ok g, refl, b)
            | inl e ↦
                let n =
                  both_true (needs_more sets repo cancel starting g.iter_list)
                    (sets.num_elements g.open_branches == 0) e in
                rw e (
                  ended_lem fuel starting g (fetch_commits_from_open_branches sets repo cancel g)
                    (λ g' h' n'.
                      fetch_loop-HasEnded fuel starting g' h' n'.0 (omega (arith, n'.1, f)))
                    (Yields-both (IsNext sets repo g) (IsNearer g)
                      (fetch_commits_from_open_branches sets repo cancel g)
                      (fetch_lem sets repo cancel g h) (fetch-IsNearer g h b n)))
          ]

    taken-IsBound :
        (g : Graph sets repo) (nodes : List GraphNode)
        → IsBound sets repo commits history g
        → Yields (λ s. IsBound sets repo commits history s.1) (take_first sets repo cancel g nodes)
    taken-IsBound g [] h = tt
    taken-IsBound g (n ∷ nodes) h = h

    -- A call of got_commit_graph_iter_next ends.
    pub iter_next_ends :
        (fuel : ℕ) (g : Graph sets repo)
        → IsGraph sets repo g
        → IsBound sets repo commits history g
        → length commits < fuel
        → (r : Result (Bytes × Graph sets repo)) × (iter_next sets repo cancel fuel g ≡ some r)
          × Yields (λ s. IsBound sets repo commits history s.1) r
    unfolding iter_next
    iter_next_ends fuel g h b f = elim (Bool-cases (needs_more sets repo cancel true g.iter_list)) [
      | inl e ↦ (err iter_completed, rw e refl, tt)
      | inr e ↦
          let (r, s, y) =
            fetch_loop-HasEnded fuel false g h b
              (omega (arith, f, unseen-length (is_node sets repo g) commits)) in
          (
            r >>= λ g'. take_first sets repo cancel g' g'.iter_list,
            rw (e, s) refl,
            Yields-bind (IsBound sets repo commits history)
                (λ s. IsBound sets repo commits history s.1) r
                (λ g'. take_first sets repo cancel g' g'.iter_list) y
                (λ g' k. taken-IsBound g' g'.iter_list k),
          )
    ]
