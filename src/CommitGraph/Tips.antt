-- ===== src/CommitGraph/Tips.antt =====
-- The tips of the open branches become nodes.
use gameoftrees.Base.{
  ◌≡◌, ◌≢◌, refl, ap, sym, ◌∙◌, ◌⊎◌, inl, inr, Bool, true, false, ◌||◌, List, [], ◌∷◌, Bytes,
  bytes_eq, bytes_eq_iff, All, Bool-cases,
}
use gameoftrees.Error.{ok, ◌>>=◌, Yields, Yields-bind, Yields-self}
use gameoftrees.CommitGraph.{Repository, HistoryCommit, Graph, add_node, add_branch_tips}
use gameoftrees.CommitGraph.Sets.{IdSets, IsDistinct, IsIn}
use gameoftrees.CommitGraph.Steps.{is_node}

abbrev pub tip_ids : List (Bytes × HistoryCommit) → List Bytes
tip_ids [] = []
tip_ids (t ∷ tips) = t.0 ∷ tip_ids tips

or_left : (a b : Bool) → a ≡ true → (a || b) ≡ true
or_left true b h = refl
or_left false b h = absurd cc

or_right : (a b : Bool) → b ≡ true → (a || b) ≡ true
or_right true b h = refl
or_right false b h = h

or_true : (a b : Bool) → (a || b) ≡ true → (a ≡ true) ⊎ (b ≡ true)
or_true true b h = inl refl
or_true false b h = inr h

module _ (sets : IdSets) (repo : Repository) where
  -- The nodes are those of before and the tips.
  pub record IsTipped (g : Graph sets repo) (ids : List Bytes)
      (r : List (Bytes × HistoryCommit) × Graph sets repo) : Type 0 where
    pub tips : tip_ids r.0 ≡ ids
    pub branches : r.1.open_branches ≡ g.open_branches
    pub iter : r.1.iter_list ≡ g.iter_list
    pub path : r.1.path ≡ g.path
    pub parents : r.1.first_parent ≡ g.first_parent
    pub node_set : sets.IsWellFormed r.1.node_ids
    pub kept : (q : Bytes) → is_node sets repo g q ≡ true → is_node sets repo r.1 q ≡ true
    pub added : All (λ q. is_node sets repo r.1 q ≡ true) ids
    pub origin :
        (q : Bytes) → is_node sets repo r.1 q ≡ true → (is_node sets repo g q ≡ true) ⊎ IsIn q ids

  pub record IsAdded (g : Graph sets repo) (id : Bytes) (g' : Graph sets repo) : Type 0 where
    pub branches : g'.open_branches ≡ g.open_branches
    pub iter : g'.iter_list ≡ g.iter_list
    pub path : g'.path ≡ g.path
    pub parents : g'.first_parent ≡ g.first_parent
    pub node_set : sets.IsWellFormed g'.node_ids
    pub nodes : (q : Bytes) → is_node sets repo g' q ≡ (bytes_eq q id || is_node sets repo g q)

  add_node-IsAdded :
      (g : Graph sets repo) (id : Bytes)
      → sets.IsWellFormed g.node_ids
      → is_node sets repo g id ≡ false
      → Yields (IsAdded g id) (add_node sets repo g id)
  unfolding add_node
  add_node-IsAdded g id w n =
      Yields-bind (λ s. sets.add g.node_ids id ≡ ok s) (IsAdded g id) (sets.add g.node_ids id)
        (λ s. ok (record g { node_ids = s }))
        (Yields-self (λ s. sets.add g.node_ids id ≡ ok s) (sets.add g.node_ids id) (λ s e. e))
        (λ s e.
          let (w', c) = sets.add_law g.node_ids id s w n e in
          record {
            branches = refl;
            iter = refl;
            path = refl;
            parents = refl;
            node_set = w';
            nodes = c;
          })

  still_new :
      (g g' : Graph sets repo) (id : Bytes) (ids : List Bytes)
      → ((q : Bytes) → is_node sets repo g' q ≡ (bytes_eq q id || is_node sets repo g q))
      → All (λ q. q ≢ id) ids
      → All (λ q. is_node sets repo g q ≡ false) ids
      → All (λ q. is_node sets repo g' q ≡ false) ids
  still_new g g' id [] c d n = tt
  still_new g g' id (q ∷ ids) c d n = elim (Bool-cases (bytes_eq q id)) [
    | inl e ↦ absurd (d.0 ((bytes_eq_iff q id).0 e))
    | inr e ↦ (c q ∙ rw e n.0, still_new g g' id ids c d.1 n.1)
  ]

  IsTipped-more :
      (g g1 : Graph sets repo) (id : Bytes) (commit : HistoryCommit) (ids : List Bytes)
      (r : List (Bytes × HistoryCommit) × Graph sets repo)
      → IsAdded g id g1
      → IsTipped g1 ids r
      → IsTipped g (id ∷ ids) ((id, commit) ∷ r.0, r.1)
  IsTipped-more g g1 id commit ids r a t =
      let itself : bytes_eq id id ≡ true = (bytes_eq_iff id id).1 refl in
      record {
        tips = ap (◌∷◌ id) t.tips;
        branches = t.branches ∙ a.branches;
        iter = t.iter ∙ a.iter;
        path = t.path ∙ a.path;
        parents = t.parents ∙ a.parents;
        node_set = t.node_set;
        kept = λ q p. t.kept q (a.nodes q ∙ or_right (bytes_eq q id) (is_node sets repo g q) p);
        added = (
          t.kept id (a.nodes id ∙ or_left (bytes_eq id id) (is_node sets repo g id) itself),
          t.added,
        );
        origin = λ q p. elim (t.origin q p) [
          | inr i ↦ inr (inr i)
          | inl n ↦ elim (or_true (bytes_eq q id) (is_node sets repo g q) (sym (a.nodes q) ∙ n)) [
            | inl e ↦ inr (inl ((bytes_eq_iff q id).0 e))
            | inr o ↦ inl o
          ]
        ];
      }

  pub add_branch_tips-IsTipped :
      (g : Graph sets repo) (ids : List Bytes)
      → sets.IsWellFormed g.node_ids
      → IsDistinct ids
      → All (λ q. is_node sets repo g q ≡ false) ids
      → Yields (IsTipped g ids) (add_branch_tips sets repo g ids)
  unfolding add_branch_tips
  add_branch_tips-IsTipped g [] w d n = record {
    tips = refl;
    branches = refl;
    iter = refl;
    path = refl;
    parents = refl;
    node_set = w;
    kept = λ q p. p;
    added = tt;
    origin = λ q p. inl p;
  }
  add_branch_tips-IsTipped g (id ∷ ids) w d n =
      Yields-bind (λ _. Unit {0}) (IsTipped g (id ∷ ids)) (repo.open_as_commit id)
        (λ commit. add_node sets repo g id >>= λ g1.
          add_branch_tips sets repo g1 ids >>= λ (tips, g2). ok ((id, commit) ∷ tips, g2))
        (Yields-self (λ _. Unit {0}) (repo.open_as_commit id) (λ c e. tt))
        (λ commit u.
          Yields-bind (IsAdded g id) (IsTipped g (id ∷ ids)) (add_node sets repo g id)
            (λ g1. add_branch_tips sets repo g1 ids >>= λ (tips, g2). ok ((id, commit) ∷ tips, g2))
            (add_node-IsAdded g id w n.0)
            (λ g1 a.
              Yields-bind (IsTipped g1 ids) (IsTipped g (id ∷ ids))
                (add_branch_tips sets repo g1 ids) (λ (tips, g2). ok ((id, commit) ∷ tips, g2))
                (add_branch_tips-IsTipped g1 ids a.node_set d.1
                  (still_new g g1 id ids a.nodes d.0 n.1))
                (λ r t. IsTipped-more g g1 id commit ids r a t)))
