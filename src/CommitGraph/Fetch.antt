-- ===== src/CommitGraph/Fetch.antt =====
-- A round of fetch_commits_from_open_branches, in the whole history of the root directory.
use gameoftrees.Base.{
  ◌≡◌, ◌≢◌, ap, sym, ◌∙◌, inl, inr, Bool, true, false, List, Bytes, All, All-map, ◌==◌, Bool-cases,
}
use gameoftrees.Error.{Result, Yields, Yields-bind, Yields-mono}
use gameoftrees.CommitGraph.{
  Repository, HistoryCommit, Graph, add_branch_tips, tips_loop, fetch_commits_from_open_branches,
}
use gameoftrees.CommitGraph.Sets.{IdSets}
use gameoftrees.CommitGraph.Steps.{is_open, is_node}
use gameoftrees.CommitGraph.Tips.{tip_ids, IsTipped, add_branch_tips-IsTipped}
use gameoftrees.CommitGraph.Loop.{IsGraph, IsLooping, IsGone, IsAfter, tips_loop_lem}

clash : (b : Bool) → b ≡ true → b ≡ false → ⊥
clash true h k = absurd cc
clash false h k = absurd cc

module _ (sets : IdSets) (repo : Repository) where
  pub tipped-IsLooping :
      (g : Graph sets repo) (r : List (Bytes × HistoryCommit) × Graph sets repo)
      → IsGraph sets repo g
      → IsTipped sets repo g (sets.ids g.open_branches) r
      → IsLooping sets repo r.1 (sets.ids g.open_branches)
  tipped-IsLooping g (tips, g1) h t =
      let (distinct, known, all) = sets.ids_law g.open_branches h.open_set in
      record {
        open_set = rw t.branches h.open_set;
        node_set = t.node_set;
        full = t.parents ∙ h.full;
        at_root = rw t.path h.at_root;
        apart = λ q o. inr (all q (ap (λ (s : sets.Set). sets.contains s q) (sym t.branches) ∙ o));
        tip_nodes = t.added;
        tips_new = rw t.iter (
            All-map (λ q. is_open sets repo g q ≡ true) (λ q. All (λ n. n.id ≢ q) g.iter_list)
              (sets.ids g.open_branches)
              (λ q o.
                All-map (λ n. is_node sets repo g n.id ≡ true) (λ n. n.id ≢ q) g.iter_list
                  (λ n p e.
                    clash (is_node sets repo g q) (ap (is_node sets repo g) (sym e) ∙ p)
                      (h.apart q o))
                  h.listed)
              known);
        tips_distinct = distinct;
        listed = rw t.iter (
            All-map (λ n. is_node sets repo g n.id ≡ true) (λ n. is_node sets repo g1 n.id ≡ true)
              g.iter_list (λ n p. t.kept n.id p) h.listed);
        distinct = rw t.iter h.distinct;
      }

  -- Whole, and what was gone is gone.
  abbrev pub IsNext : Graph sets repo → Graph sets repo → Type 0
  IsNext g g' = IsGraph sets repo g' × ((r : Bytes) → IsGone sets repo r g → IsGone sets repo r g')

  module _ (cancel : Graph sets repo → Result (Unit {0})) where
    pub fetch_lem :
        (g : Graph sets repo)
        → IsGraph sets repo g
        → Yields (IsNext g) (fetch_commits_from_open_branches sets repo cancel g)
    unfolding fetch_commits_from_open_branches
    fetch_lem g h = elim (Bool-cases (sets.num_elements g.open_branches == 0)) [
      | inl e ↦ rw e (h, λ r k. k)
      | inr e ↦
          let (distinct, known, all) = sets.ids_law g.open_branches h.open_set in
          let fresh : All (λ q. is_node sets repo g q ≡ false) (sets.ids g.open_branches) =
            All-map (λ q. is_open sets repo g q ≡ true) (λ q. is_node sets repo g q ≡ false)
              (sets.ids g.open_branches) h.apart known in
          rw e (
            Yields-bind (IsTipped sets repo g (sets.ids g.open_branches)) (IsNext g)
              (add_branch_tips sets repo g (sets.ids g.open_branches))
              (λ (tips, g1). tips_loop sets repo cancel g1 tips)
              (add_branch_tips-IsTipped sets repo g (sets.ids g.open_branches) h.node_set distinct
                fresh)
              (λ (tips, g1) t.
                let l : IsLooping sets repo g1 (tip_ids tips) =
                  rw t.tips (tipped-IsLooping g (tips, g1) h t) in
                Yields-mono (IsAfter sets repo g1 (tip_ids tips)) (IsNext g)
                  (tips_loop sets repo cancel g1 tips)
                  (λ g' (w, k). (
                    w,
                    λ r gone.
                        k r (t.kept r gone.0, rw t.iter gone.1)
                          (rw t.tips (
                            All-map (λ q. is_node sets repo g q ≡ false) (λ q. q ≢ r)
                              (sets.ids g.open_branches)
                              (λ q n same.
                                clash (is_node sets repo g r) gone.0
                                  (ap (is_node sets repo g) (sym same) ∙ n))
                              fresh)),
                  ))
                  (tips_loop_lem sets repo cancel g1 tips l)))
    ]
