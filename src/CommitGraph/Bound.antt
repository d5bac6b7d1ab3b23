-- ===== src/CommitGraph/Bound.antt =====
-- The open branches stay in the history that they come from.
use gameoftrees.Base.{
  ℕ, ◌≡◌, refl, ap, sym, ◌∙◌, inl, inr, true, false, List, [], ◌∷◌, Bytes, All, arith, length, ◌==◌,
}
use gameoftrees.Error.{Result, ok, ◌>>=◌, Yields, Yields-bind, Yields-mono, Yields-self}
use gameoftrees.CommitGraph.{
  GraphNode, Repository, HistoryCommit, is_root_dir, add_node_to_iter_list, Graph,
  detect_changed_path, advance_branch, tip_compared, add_node, add_branch_tips, tips_loop,
}
use gameoftrees.CommitGraph.Sets.{IdSets, IsIn}
use gameoftrees.CommitGraph.Steps.{is_open, is_node, IsStep, IsClosed, advance_branch_lem}
use gameoftrees.CommitGraph.Loop.{detect_root}

-- A history: every commit of the list that opens has its parents in the list.
abbrev pub IsHistory : Repository → List Bytes → Type 0
IsHistory repo commits =
    (id : Bytes) (c : HistoryCommit)
    → IsIn id commits
    → repo.open_as_commit id ≡ ok c
    → All (λ p. IsIn p commits) c.parent_ids

pub IsIn-All : (q : Bytes) (l : List Bytes) (P : Bytes → Type 0) → IsIn q l → All P l → P q
IsIn-All q [] P i h = absurd i
IsIn-All q (x ∷ l) P (inl e) h = rw e h.0
IsIn-All q (x ∷ l) P (inr i) h = IsIn-All q l P i h.1

module _ (sets : IdSets) (repo : Repository) (commits : List Bytes)
    (history : IsHistory repo commits) where
  -- The open branches and the nodes are commits of the history.
  abbrev pub IsBound : Graph sets repo → Type 0
  IsBound g =
      ((q : Bytes) → is_open sets repo g q ≡ true → IsIn q commits)
      × ((q : Bytes) → is_node sets repo g q ≡ true → IsIn q commits)

  -- In the loop over the tips, from the nodes `nodes` on.
  pub record IsBounded (nodes : sets.Set) (g : Graph sets repo) : Type 0 where
    pub node_ids : g.node_ids ≡ nodes
    pub open_set : sets.IsWellFormed g.open_branches
    pub full : g.first_parent ≡ false
    pub at_root : is_root_dir g.path ≡ true
    pub bound : IsBound g

  abbrev pub HasParents : Bytes × HistoryCommit → Type 0
  HasParents t = All (λ p. IsIn p commits) t.1.parent_ids

  tip-IsBounded :
      (nodes : sets.Set) (g : Graph sets repo) (id : Bytes) (commit : HistoryCommit)
      → IsBounded nodes g
      → HasParents (id, commit)
      → Yields
          (IsBounded nodes)
          (tip_compared sets repo g id commit (detect_changed_path sets repo commit id g.path))
  unfolding tip_compared
  tip-IsBounded nodes g id commit b p =
      let node : GraphNode = record { id = id; timestamp = commit.committer_time } in
      let g0 : Graph sets repo = record g { iter_list = add_node_to_iter_list g.iter_list node } in
      rw (detect_root sets repo commit id g.path b.at_root) (
        Yields-mono
          (λ g'.
            (m : Graph sets repo) × IsClosed sets repo g0 id m
            × IsStep sets repo commit.parent_ids m g')
          (IsBounded nodes) (advance_branch sets repo g0 id commit)
          (λ g' (m, c, s). record {
            node_ids = s.nodes ∙ c.nodes ∙ b.node_ids;
            open_set = s.open_set;
            full = s.parents ∙ c.parents ∙ b.full;
            at_root = ap is_root_dir (s.path ∙ c.path) ∙ b.at_root;
            bound = (
              λ q o. elim (s.origin q o) [
                | inl old ↦ b.bound.0 q (c.remaining q old).0
                | inr new ↦ IsIn-All q commit.parent_ids (λ x. IsIn x commits) new p
              ],
              λ q n.
                  b.bound.1 q
                    (ap (λ (t : sets.Set). sets.contains t q) (sym (s.nodes ∙ c.nodes)) ∙ n),
            );
          })
          (advance_branch_lem sets repo g0 id commit b.open_set b.full b.at_root))

  pub tips_parents :
      (g : Graph sets repo) (ids : List Bytes)
      → All (λ q. IsIn q commits) ids
      → Yields (λ r. All HasParents r.0) (add_branch_tips sets repo g ids)
  unfolding add_branch_tips
  tips_parents g [] h = tt
  tips_parents g (id ∷ ids) h =
      Yields-bind (λ c. repo.open_as_commit id ≡ ok c) (λ r. All HasParents r.0)
        (repo.open_as_commit id)
        (λ commit. add_node sets repo g id >>= λ g1.
          add_branch_tips sets repo g1 ids >>= λ (tips, g2). ok ((id, commit) ∷ tips, g2))
        (Yields-self (λ c. repo.open_as_commit id ≡ ok c) (repo.open_as_commit id) (λ c e. e))
        (λ commit e.
          Yields-bind (λ _. Unit {0}) (λ r. All HasParents r.0) (add_node sets repo g id)
            (λ g1. add_branch_tips sets repo g1 ids >>= λ (tips, g2). ok ((id, commit) ∷ tips, g2))
            (Yields-self (λ _. Unit {0}) (add_node sets repo g id) (λ c e. tt))
            (λ g1 u.
              Yields-bind (λ r. All HasParents r.0) (λ r. All HasParents r.0)
                (add_branch_tips sets repo g1 ids) (λ (tips, g2). ok ((id, commit) ∷ tips, g2))
                (tips_parents g1 ids h.1) (λ r all. (history id commit h.0 e, all))))

  pub first_of :
      (ids : List Bytes) (n : ℕ) → n ≡ length ids → (n == 0) ≡ false → (q : Bytes) × IsIn q ids
  first_of [] n e h = absurd (ground arith)
  first_of (q ∷ ids) n e h = (q, inl refl)

  module _ (cancel : Graph sets repo → Result (Unit {0})) where
    pub tips-IsBounded :
        (nodes : sets.Set) (g : Graph sets repo) (tips : List (Bytes × HistoryCommit))
        → IsBounded nodes g
        → All HasParents tips
        → Yields (IsBounded nodes) (tips_loop sets repo cancel g tips)
    unfolding tips_loop
    tips-IsBounded nodes g [] b h = b
    tips-IsBounded nodes g ((id, commit) ∷ tips) b h =
        let tip =
          tip_compared sets repo g id commit (detect_changed_path sets repo commit id g.path) in
        Yields-bind (λ _. Unit {0}) (IsBounded nodes) (cancel g)
          (λ stop. tip >>= λ g'. tips_loop sets repo cancel g' tips)
          (Yields-self (λ _. Unit {0}) (cancel g) (λ c e. tt))
          (λ c u.
            Yields-bind (IsBounded nodes) (IsBounded nodes) tip
              (λ g'. tips_loop sets repo cancel g' tips) (tip-IsBounded nodes g id commit b h.0)
              (λ g' b'. tips-IsBounded nodes g' tips b' h.1))
