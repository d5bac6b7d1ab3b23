-- ===== src/CommitGraph/Steps.antt =====
-- What a step of the traversal does to the open branches, in the whole history of the root directory.
use gameoftrees.Base.{
  ◌≡◌, ◌≢◌, refl, ap, sym, ◌∙◌, ◌⊎◌, inl, inr, Bool, true, false, ◌&&◌, ◌||◌, not, List, [], ◌∷◌,
  Bytes, bytes_eq, bytes_eq_iff, ltb, Bool-cases,
}
use gameoftrees.Error.{Result, ok, err, trap, Yields, Yields-bind, Yields-mono, Yields-self}
use gameoftrees.CommitGraph.{
  Repository, HistoryCommit, is_root_dir, Graph, open_branch, closed, close_branch, open_parents,
  follow_parents, advance_branch,
}
use gameoftrees.CommitGraph.Sets.{IsIn, IdSets, is_no_obj}

or_false : (a b : Bool) → (a || b) ≡ false → (a ≡ false) × (b ≡ false)
or_false true b h = (h, absurd cc)
or_false false b h = (refl, h)

or_true : (a b : Bool) → (a || b) ≡ true → (a ≡ true) ⊎ (b ≡ true)
or_true true b h = inl refl
or_true false b h = inr h

and_true : (a b : Bool) → (not a && b) ≡ true → (a ≡ false) × (b ≡ true)
and_true true b h = absurd cc
and_true false b h = (refl, h)

module _ (sets : IdSets) (repo : Repository) where
  abbrev pub is_open : Graph sets repo → Bytes → Bool
  is_open g q = sets.contains g.open_branches q

  abbrev pub is_node : Graph sets repo → Bytes → Bool
  is_node g q = sets.contains g.node_ids q

  -- A step that opens branches of `ids`.
  pub record IsStep (ids : List Bytes) (g g' : Graph sets repo) : Type 0 where
    pub nodes : g'.node_ids ≡ g.node_ids
    pub iter : g'.iter_list ≡ g.iter_list
    pub path : g'.path ≡ g.path
    pub parents : g'.first_parent ≡ g.first_parent
    pub open_set : sets.IsWellFormed g'.open_branches
    pub opened : (q : Bytes) → is_open g' q ≡ true → (is_open g q ≡ true) ⊎ (is_node g q ≡ false)
    pub origin : (q : Bytes) → is_open g' q ≡ true → (is_open g q ≡ true) ⊎ IsIn q ids

  IsStep-trans :
      (id : Bytes) (ids : List Bytes) (g g' g'' : Graph sets repo)
      → IsStep (id ∷ []) g g'
      → IsStep ids g' g''
      → IsStep (id ∷ ids) g g''
  IsStep-trans id ids g g' g'' h k = record {
    nodes = k.nodes ∙ h.nodes;
    iter = k.iter ∙ h.iter;
    path = k.path ∙ h.path;
    parents = k.parents ∙ h.parents;
    open_set = k.open_set;
    opened = λ q o. elim (k.opened q o) [
      | inl p ↦ h.opened q p
      | inr p ↦ inr (ap (λ (s : sets.Set). sets.contains s q) (sym h.nodes) ∙ p)
    ];
    origin = λ q o. elim (k.origin q o) [
      | inr p ↦ inr (inr p)
      | inl p ↦ elim (h.origin q p) [
        | inl old ↦ inl old
        | inr (inl same) ↦ inr (inl same)
        | inr (inr i) ↦ absurd i
      ]
    ];
  }

  IsStep-more :
      (id : Bytes) (ids : List Bytes) (g g' : Graph sets repo)
      → IsStep ids g g'
      → IsStep (id ∷ ids) g g'
  IsStep-more id ids g g' h = record {
    nodes = h.nodes;
    iter = h.iter;
    path = h.path;
    parents = h.parents;
    open_set = h.open_set;
    opened = h.opened;
    origin = λ q o. elim (h.origin q o) [ inl p ↦ inl p | inr p ↦ inr (inr p) ];
  }

  open_branch-IsStep :
      (g : Graph sets repo) (id : Bytes)
      → sets.IsWellFormed g.open_branches
      → is_open g id ≡ false
      → is_node g id ≡ false
      → Yields (IsStep (id ∷ []) g) (open_branch sets repo g id)
  unfolding open_branch
  open_branch-IsStep g id w o n =
      Yields-bind (λ s. sets.add g.open_branches id ≡ ok s) (IsStep (id ∷ []) g)
        (sets.add g.open_branches id) (λ s. ok (record g { open_branches = s }))
        (Yields-self (λ s. sets.add g.open_branches id ≡ ok s) (sets.add g.open_branches id)
          (λ s e. e))
        (λ s e.
          let (w', c) = sets.add_law g.open_branches id s w o e in
          record {
            nodes = refl;
            iter = refl;
            path = refl;
            parents = refl;
            open_set = w';
            opened = λ q p. elim (or_true (bytes_eq q id) (is_open g q) (sym (c q) ∙ p)) [
              | inl same ↦ inr (ap (λ (x : Bytes). is_node g x) ((bytes_eq_iff q id).0 same) ∙ n)
              | inr old ↦ inl old
            ];
            origin = λ q p. elim (or_true (bytes_eq q id) (is_open g q) (sym (c q) ∙ p)) [
              | inl same ↦ inr (inl ((bytes_eq_iff q id).0 same))
              | inr old ↦ inl old
            ];
          })

  pub open_parents-IsStep :
      (g : Graph sets repo) (ids : List Bytes)
      → sets.IsWellFormed g.open_branches
      → Yields (IsStep ids g) (open_parents sets repo g ids)
  unfolding open_parents
  open_parents-IsStep g [] w = record {
    nodes = refl;
    iter = refl;
    path = refl;
    parents = refl;
    open_set = w;
    opened = λ q p. inl p;
    origin = λ q p. inl p;
  }
  open_parents-IsStep g (id ∷ ids) w = elim (Bool-cases (is_open g id || is_node g id)) [
    | inl e ↦ rw e (
        Yields-mono (IsStep ids g) (IsStep (id ∷ ids) g) (open_parents sets repo g ids)
          (λ g' h. IsStep-more id ids g g' h) (open_parents-IsStep g ids w))
    | inr e ↦
        let (o, n) = or_false (is_open g id) (is_node g id) e in
        rw e (
          Yields-bind (IsStep (id ∷ []) g) (IsStep (id ∷ ids) g) (open_branch sets repo g id)
            (λ g'. open_parents sets repo g' ids) (open_branch-IsStep g id w o n)
            (λ g' k.
              Yields-mono (IsStep ids g') (IsStep (id ∷ ids) g) (open_parents sets repo g' ids)
                (λ g'' l. IsStep-trans id ids g g' g'' k l)
                (open_parents-IsStep g' ids k.open_set)))
  ]

  -- A step that closes the branch of a commit.
  pub record IsClosed (g : Graph sets repo) (id : Bytes) (g' : Graph sets repo) : Type 0 where
    pub nodes : g'.node_ids ≡ g.node_ids
    pub iter : g'.iter_list ≡ g.iter_list
    pub path : g'.path ≡ g.path
    pub parents : g'.first_parent ≡ g.first_parent
    pub open_set : sets.IsWellFormed g'.open_branches
    pub remaining : (q : Bytes) → is_open g' q ≡ true → (is_open g q ≡ true) × (q ≢ id)

  different : (q id : Bytes) (b : Bool) → (b ≡ false) → (q ≡ id → b ≡ true) → q ≢ id
  different q id true h k = absurd cc
  different q id false h k = λ s. absurd (let t : false ≡ true = k s in cc)

  closed-IsClosed :
      (g : Graph sets repo) (id : Bytes) (r : Result sets.Set)
      → sets.IsWellFormed g.open_branches
      → sets.remove g.open_branches id ≡ r
      → Yields (IsClosed g id) (closed sets repo g r)
  closed-IsClosed g id (trap z) w e = tt
  closed-IsClosed g id (ok s) w e =
      let (w', c) = sets.remove_law g.open_branches id s w e in
      record {
        nodes = refl;
        iter = refl;
        path = refl;
        parents = refl;
        open_set = w';
        remaining = λ q p.
            let (n, o) = and_true (bytes_eq q id) (is_open g q) (sym (c q) ∙ p) in
            (o, different q id (bytes_eq q id) n (λ s. (bytes_eq_iff q id).1 s));
      }
  closed-IsClosed g id (err e) w r = elim (Bool-cases (is_no_obj e)) [
    | inr n ↦ rw n tt
    | inl n ↦
        let none = sets.remove_none g.open_branches id e w r n in
        rw n (record {
          nodes = refl;
          iter = refl;
          path = refl;
          parents = refl;
          open_set = w;
          remaining = λ q p. (
            p,
            λ s. absurd (
                let same : is_open g id ≡ true = sym (ap (is_open g) s) ∙ p in
                let clash : false ≡ true = sym none ∙ same in cc),
          );
        })
  ]

  follow_parents_lem :
      (m : Graph sets repo) (id : Bytes) (commit : HistoryCommit)
      → m.first_parent ≡ false
      → is_root_dir m.path ≡ true
      → follow_parents sets repo m id commit ≡ open_parents sets repo m commit.parent_ids
  unfolding follow_parents
  follow_parents_lem m id commit f p = elim (Bool-cases (ltb 1 commit.nparents)) [
    | inl b ↦ rw (f, p, b) refl
    | inr b ↦ rw (f, p, b) refl
  ]

  pub advance_branch_lem :
      (g : Graph sets repo) (id : Bytes) (commit : HistoryCommit)
      → sets.IsWellFormed g.open_branches
      → g.first_parent ≡ false
      → is_root_dir g.path ≡ true
      → Yields
          (λ g'. (m : Graph sets repo) × IsClosed g id m × IsStep commit.parent_ids m g')
          (advance_branch sets repo g id commit)
  unfolding advance_branch close_branch
  advance_branch_lem g id commit w f p =
      Yields-bind (IsClosed g id)
        (λ g'. (m : Graph sets repo) × IsClosed g id m × IsStep commit.parent_ids m g')
        (closed sets repo g (sets.remove g.open_branches id))
        (λ m. follow_parents sets repo m id commit)
        (closed-IsClosed g id (sets.remove g.open_branches id) w refl)
        (λ m k. rw (follow_parents_lem m id commit (k.parents ∙ f) (ap is_root_dir k.path ∙ p)) (
          Yields-mono (IsStep commit.parent_ids m)
            (λ g'. (n : Graph sets repo) × IsClosed g id n × IsStep commit.parent_ids n g')
            (open_parents sets repo m commit.parent_ids) (λ g' l. (m, k, l))
            (open_parents-IsStep m commit.parent_ids k.open_set)))
