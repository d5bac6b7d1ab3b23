-- ===== src/CommitGraph/Loop.antt =====
-- The loop over the tips, in the whole history of the root directory.
use gameoftrees.Base.{
  ◌≡◌, ◌≢◌, refl, ap, sym, ◌∙◌, ◌⊎◌, inl, inr, true, false, List, [], ◌∷◌, Bytes, All, All-both,
  All-map,
}
use gameoftrees.Error.{Result, ok, ◌>>=◌, Yields, Yields-bind, Yields-mono, Yields-self}
use gameoftrees.CommitGraph.{
  GraphNode, Repository, HistoryCommit, is_root_dir, add_node_to_iter_list, Graph,
  detect_changed_path, advance_branch, tip_compared, tips_loop,
}
use gameoftrees.CommitGraph.Sets.{IdSets, IsDistinct, IsIn}
use gameoftrees.CommitGraph.Steps.{is_open, is_node, IsStep, IsClosed, advance_branch_lem}
use gameoftrees.CommitGraph.Tips.{tip_ids}
use gameoftrees.CommitGraph.IterList.{AreDistinct, add_node-All, add_node-AreDistinct}

module _ (sets : IdSets) (repo : Repository) where
  -- A graph between two calls.
  pub record IsGraph (g : Graph sets repo) : Type 0 where
    pub open_set : sets.IsWellFormed g.open_branches
    pub node_set : sets.IsWellFormed g.node_ids
    pub full : g.first_parent ≡ false
    pub at_root : is_root_dir g.path ≡ true
    pub apart : (q : Bytes) → is_open sets repo g q ≡ true → is_node sets repo g q ≡ false
    pub listed : All (λ n. is_node sets repo g n.id ≡ true) g.iter_list
    pub distinct : AreDistinct g.iter_list

  -- A graph in the loop over the tips.
  pub record IsLooping (g : Graph sets repo) (tips : List Bytes) : Type 0 where
    pub open_set : sets.IsWellFormed g.open_branches
    pub node_set : sets.IsWellFormed g.node_ids
    pub full : g.first_parent ≡ false
    pub at_root : is_root_dir g.path ≡ true
    pub apart :
        (q : Bytes) → is_open sets repo g q ≡ true → (is_node sets repo g q ≡ false) ⊎ IsIn q tips
    pub tip_nodes : All (λ q. is_node sets repo g q ≡ true) tips
    pub tips_new : All (λ q. All (λ n. n.id ≢ q) g.iter_list) tips
    pub tips_distinct : IsDistinct tips
    pub listed : All (λ n. is_node sets repo g n.id ≡ true) g.iter_list
    pub distinct : AreDistinct g.iter_list

  -- The commit is a node, and is not in the list.
  abbrev pub IsGone : Bytes → Graph sets repo → Type 0
  IsGone r g = (is_node sets repo g r ≡ true) × All (λ n. n.id ≢ r) g.iter_list

  -- What is gone stays so, the tips apart.
  abbrev Keeps : Graph sets repo → List Bytes → Graph sets repo → Type 0
  Keeps g tips g' = (r : Bytes) → IsGone r g → All (λ q. q ≢ r) tips → IsGone r g'

  IsLooping-step :
      (g m g' : Graph sets repo) (id : Bytes) (commit : HistoryCommit) (tips : List Bytes)
      → IsLooping g (id ∷ tips)
      → IsClosed sets repo
          (record g {
            iter_list =
                add_node_to_iter_list g.iter_list
                  (record { id = id; timestamp = commit.committer_time });
          })
          id
          m
      → IsStep sets repo commit.parent_ids m g'
      → IsLooping g' tips × Keeps g (id ∷ tips) g'
  IsLooping-step g m g' id commit tips l c s =
      let node : GraphNode = record { id = id; timestamp = commit.committer_time } in
      let nodes : g'.node_ids ≡ g.node_ids = s.nodes ∙ c.nodes in
      let iter : g'.iter_list ≡ add_node_to_iter_list g.iter_list node = s.iter ∙ c.iter in
      let same : (q : Bytes) → is_node sets repo g' q ≡ is_node sets repo g q =
        λ q. ap (λ (t : sets.Set). sets.contains t q) nodes in
      let listed : All (λ n. is_node sets repo g n.id ≡ true)
          (add_node_to_iter_list g.iter_list node) =
        add_node-All (λ n. is_node sets repo g n.id ≡ true) node g.iter_list l.tip_nodes.0
          l.listed in
      (
        record {
          open_set = s.open_set;
          node_set = rw nodes l.node_set;
          full = s.parents ∙ c.parents ∙ l.full;
          at_root = ap is_root_dir (s.path ∙ c.path) ∙ l.at_root;
          apart = λ q o. elim (s.opened q o) [
            | inr n ↦ inl (ap (λ (t : sets.Set). sets.contains t q) s.nodes ∙ n)
            | inl p ↦
                let (old, other) = c.remaining q p in
                elim (l.apart q old) [
                  | inl n ↦ inl (same q ∙ n)
                  | inr (inl e) ↦ absurd (other e)
                  | inr (inr i) ↦ inr i
                ]
          ];
          tip_nodes =
              All-map (λ q. is_node sets repo g q ≡ true) (λ q. is_node sets repo g' q ≡ true) tips
                (λ q p. same q ∙ p) l.tip_nodes.1;
          tips_new = rw iter (
              All-both (λ q. q ≢ id) (λ q. All (λ n. n.id ≢ q) g.iter_list)
                (λ q. All (λ n. n.id ≢ q) (add_node_to_iter_list g.iter_list node)) tips
                (λ q d a. add_node-All (λ n. n.id ≢ q) node g.iter_list (λ e. d (sym e)) a)
                l.tips_distinct.0 l.tips_new.1);
          tips_distinct = l.tips_distinct.1;
          listed = rw iter (
              All-map (λ n. is_node sets repo g n.id ≡ true) (λ n. is_node sets repo g' n.id ≡ true)
                (add_node_to_iter_list g.iter_list node) (λ n p. same n.id ∙ p) listed);
          distinct = rw iter (add_node-AreDistinct node g.iter_list l.tips_new.0 l.distinct);
        },
        λ r h t. (same r ∙ h.0, rw iter (add_node-All (λ n. n.id ≢ r) node g.iter_list t.0 h.1)),
      )

  looping_end : (g : Graph sets repo) → IsLooping g [] → IsGraph g
  looping_end g l = record {
    open_set = l.open_set;
    node_set = l.node_set;
    full = l.full;
    at_root = l.at_root;
    apart = λ q o. elim (l.apart q o) [ inl n ↦ n | inr i ↦ absurd i ];
    listed = l.listed;
    distinct = l.distinct;
  }

  pub detect_root :
      (commit : HistoryCommit) (id path : Bytes)
      → is_root_dir path ≡ true
      → detect_changed_path sets repo commit id path ≡ ok true
  unfolding detect_changed_path
  detect_root commit id path e = rw e refl

  -- Behind the loop the graph is whole, and what was gone is.
  abbrev pub IsAfter : Graph sets repo → List Bytes → Graph sets repo → Type 0
  IsAfter g tips g' = IsGraph g' × Keeps g tips g'

  tip_lem :
      (g : Graph sets repo) (id : Bytes) (commit : HistoryCommit) (tips : List Bytes)
      → IsLooping g (id ∷ tips)
      → Yields
          (λ g'. IsLooping g' tips × Keeps g (id ∷ tips) g')
          (tip_compared sets repo g id commit (detect_changed_path sets repo commit id g.path))
  unfolding tip_compared
  tip_lem g id commit tips l =
      let node : GraphNode = record { id = id; timestamp = commit.committer_time } in
      let g0 : Graph sets repo = record g { iter_list = add_node_to_iter_list g.iter_list node } in
      rw (detect_root commit id g.path l.at_root) (
        Yields-mono
          (λ g'.
            (m : Graph sets repo) × IsClosed sets repo g0 id m
            × IsStep sets repo commit.parent_ids m g')
          (λ g'. IsLooping g' tips × Keeps g (id ∷ tips) g') (advance_branch sets repo g0 id commit)
          (λ g' (m, c, s). IsLooping-step g m g' id commit tips l c s)
          (advance_branch_lem sets repo g0 id commit l.open_set l.full l.at_root))

  module _ (cancel : Graph sets repo → Result (Unit {0})) where
    pub tips_loop_lem :
        (g : Graph sets repo) (tips : List (Bytes × HistoryCommit))
        → IsLooping g (tip_ids tips)
        → Yields (IsAfter g (tip_ids tips)) (tips_loop sets repo cancel g tips)
    unfolding tips_loop
    tips_loop_lem g [] l = (looping_end g l, λ r h t. h)
    tips_loop_lem g ((id, commit) ∷ tips) l =
        let tip =
          tip_compared sets repo g id commit (detect_changed_path sets repo commit id g.path) in
        Yields-bind (λ _. Unit {0}) (IsAfter g (id ∷ tip_ids tips)) (cancel g)
          (λ stop. tip >>= λ g'. tips_loop sets repo cancel g' tips)
          (Yields-self (λ _. Unit {0}) (cancel g) (λ c e. tt))
          (λ c u.
            Yields-bind (λ g'. IsLooping g' (tip_ids tips) × Keeps g (id ∷ tip_ids tips) g')
              (IsAfter g (id ∷ tip_ids tips)) tip (λ g'. tips_loop sets repo cancel g' tips)
              (tip_lem g id commit (tip_ids tips) l)
              (λ g' (l', k).
                Yields-mono (IsAfter g' (tip_ids tips)) (IsAfter g (id ∷ tip_ids tips))
                  (tips_loop sets repo cancel g' tips)
                  (λ g'' (w, k'). (w, λ r h t. k' r (k r h t) t.1)) (tips_loop_lem g' tips l')))
