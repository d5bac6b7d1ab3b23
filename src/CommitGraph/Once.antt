-- ===== src/CommitGraph/Once.antt =====
-- A commit is passed at most once, in the whole history of the root directory.
use gameoftrees.Base.{
  ℕ, zero, suc, ◌≡◌, ◌≢◌, refl, inl, inr, Bool, true, false, ◌&&◌, not, List, [], ◌∷◌, Bytes,
  Option, none, some, All, ◌==◌, Bool-cases,
}
use gameoftrees.Error.{Result, ok, err, trap, ◌>>=◌, Yields, Yields-bind, Yields-mono, Yields-self}
use gameoftrees.CommitGraph.{
  GraphNode, Repository, Graph, fetch_commits_from_open_branches, needs_more, fetch_loop,
  take_first, iter_next, is_root_dir, graph_open, open_branch, started, iter_start,
}
use gameoftrees.CommitGraph.Sets.{IdSets}
use gameoftrees.CommitGraph.IterList.{AreDistinct}
use gameoftrees.CommitGraph.Steps.{is_node}
use gameoftrees.CommitGraph.Fetch.{IsNext, fetch_lem}
use gameoftrees.CommitGraph.Loop.{IsGraph, IsGone}

module _ (sets : IdSets) (repo : Repository) where
  module _ (cancel : Graph sets repo → Result (Unit {0})) where
    -- Where the fuel is enough, and there is a result.
    abbrev Within : (Graph sets repo → Type 0) → Option (Result (Graph sets repo)) → Type 0
    Within P none = Unit
    Within P (some r) = Yields P r

    Within-mono :
        (P Q : Graph sets repo → Type 0) (o : Option (Result (Graph sets repo)))
        → ((g : Graph sets repo) → P g → Q g)
        → Within P o
        → Within Q o
    Within-mono P Q none f h = tt
    Within-mono P Q (some r) f h = Yields-mono P Q r f h

    fetched_lem :
        (fuel : ℕ) (starting : Bool) (g : Graph sets repo) (r : Result (Graph sets repo))
        → ((g' : Graph sets repo)
            → IsGraph sets repo g'
            → Within (IsNext sets repo g') (fetch_loop sets repo cancel fuel starting g'))
        → Yields (IsNext sets repo g) r
        → Within (IsNext sets repo g) (elim r [
          | ok g' ↦ fetch_loop sets repo cancel fuel starting g'
          | err e ↦ some (err e)
          | trap z ↦ some (trap z)
        ])
    fetched_lem fuel starting g (err e) ih h = tt
    fetched_lem fuel starting g (trap z) ih h = tt
    fetched_lem fuel starting g (ok g') ih (w, k) =
        Within-mono (IsNext sets repo g') (IsNext sets repo g)
          (fetch_loop sets repo cancel fuel starting g')
          (λ g'' (w', k'). (w', λ r gone. k' r (k r gone))) (ih g' w)

    fetch_loop_lem :
        (fuel : ℕ) (starting : Bool) (g : Graph sets repo)
        → IsGraph sets repo g
        → Within (IsNext sets repo g) (fetch_loop sets repo cancel fuel starting g)
    unfolding fetch_loop
    fetch_loop_lem zero starting g h = tt
    fetch_loop_lem (suc fuel) starting g h =
        elim (Bool-cases (
          needs_more sets repo cancel starting g.iter_list
          && not (sets.num_elements g.open_branches == 0))) [
            | inr e ↦ rw e (h, λ r k. k)
            | inl e ↦ rw e (
                fetched_lem fuel starting g (fetch_commits_from_open_branches sets repo cancel g)
                  (fetch_loop_lem fuel starting) (fetch_lem sets repo cancel g h))
          ]

    -- What a call passes, and the graph it leaves.
    abbrev IsPassed : Graph sets repo → Bytes × Graph sets repo → Type 0
    IsPassed g r =
        IsGraph sets repo r.1
        × IsGone sets repo r.0 r.1
        × ((q : Bytes) → IsGone sets repo q g → (r.0 ≢ q) × IsGone sets repo q r.1)

    take_first_lem :
        (g g' : Graph sets repo) (nodes : List GraphNode)
        → g'.iter_list ≡ nodes
        → IsNext sets repo g g'
        → Yields (IsPassed g) (take_first sets repo cancel g' nodes)
    take_first_lem g g' [] e h = tt
    take_first_lem g g' (n ∷ nodes) e (w, k) =
        let listed : All (λ m. is_node sets repo g' m.id ≡ true) (n ∷ nodes) = rw e at w.listed in
        let distinct : AreDistinct (n ∷ nodes) = rw e at w.distinct in
        (
          record {
            open_set = w.open_set;
            node_set = w.node_set;
            full = w.full;
            at_root = w.at_root;
            apart = w.apart;
            listed = listed.1;
            distinct = distinct.1;
          },
          (listed.0, distinct.0),
          λ r gone.
              let (node, others) = k r gone in
              let absent : All (λ m. m.id ≢ r) (n ∷ nodes) = rw e at others in
              (absent.0, (node, absent.1)),
        )

    abbrev WithinPair :
        (Bytes × Graph sets repo → Type 0) → Option (Result (Bytes × Graph sets repo)) → Type 0
    WithinPair P none = Unit
    WithinPair P (some r) = Yields P r

    passed_lem :
        (g : Graph sets repo) (o : Option (Result (Graph sets repo)))
        → Within (IsNext sets repo g) o
        → WithinPair (IsPassed g) (elim o [
          | none ↦ none
          | some r ↦ some (r >>= λ g'. take_first sets repo cancel g' g'.iter_list)
        ])
    passed_lem g none h = tt
    passed_lem g (some r) h =
        Yields-bind (IsNext sets repo g) (IsPassed g) r
          (λ g'. take_first sets repo cancel g' g'.iter_list) h
          (λ g' k. take_first_lem g g' g'.iter_list refl k)

    iter_next_within :
        (fuel : ℕ) (g : Graph sets repo)
        → IsGraph sets repo g
        → WithinPair (IsPassed g) (iter_next sets repo cancel fuel g)
    unfolding iter_next
    iter_next_within fuel g h = elim (Bool-cases (needs_more sets repo cancel true g.iter_list)) [
      | inl e ↦ rw e tt
      | inr e ↦
          rw e (
            passed_lem g (fetch_loop sets repo cancel fuel false g) (fetch_loop_lem fuel false g h))
    ]

    -- In the whole history of the root directory, a commit that got_commit_graph_iter_next passes is
    -- never passed again: it is a node of the graph that is left and not in its list, and of that
    -- graph all this holds again. A commit for which it held before is not the one that is passed,
    -- and it holds of it still.
    pub iter_next-IsGone :
        (fuel : ℕ) (g : Graph sets repo) (id : Bytes) (g' : Graph sets repo)
        → IsGraph sets repo g
        → iter_next sets repo cancel fuel g ≡ some (ok (id, g'))
        → IsGraph sets repo g'
          × IsGone sets repo id g'
          × ((q : Bytes) → IsGone sets repo q g → (id ≢ q) × IsGone sets repo q g')
    iter_next-IsGone fuel g id g' h e =
        let within : WithinPair (IsPassed g) (some (ok (id, g'))) =
          rw e at (iter_next_within fuel g h) in
        within

    started_lem :
        (g : Graph sets repo)
        → IsGraph sets repo g
        → Yields (IsGraph sets repo) (started sets repo cancel g)
    started_lem g h = elim (Bool-cases (needs_more sets repo cancel true g.iter_list)) [
      | inl e ↦ rw (e, h.at_root) tt
      | inr e ↦ rw e h
    ]

    pub opened_lem :
        (path id : Bytes)
        → is_root_dir path ≡ true
        → Yields (IsGraph sets repo) (open_branch sets repo (graph_open sets repo path false) id)
    unfolding open_branch graph_open
    opened_lem path id p =
        let (w, no_ids) = sets.empty_law in
        Yields-bind (λ s. sets.add sets.empty id ≡ ok s) (IsGraph sets repo)
          (sets.add sets.empty id)
          (λ s. ok (record (graph_open sets repo path false) { open_branches = s }))
          (Yields-self (λ s. sets.add sets.empty id ≡ ok s) (sets.add sets.empty id) (λ s e. e))
          (λ s e.
            let (w', c) = sets.add_law sets.empty id s w (no_ids id) e in
            record {
              open_set = w';
              node_set = w;
              full = refl;
              at_root = p;
              apart = λ q o. no_ids q;
              listed = tt;
              distinct = tt;
            })

    searched_lem :
        (o : Option (Result (Graph sets repo)))
        → Within (IsGraph sets repo) o
        → Within
            (IsGraph sets repo)
            (elim o [ none ↦ none | some r ↦ some (r >>= started sets repo cancel) ])
    searched_lem none h = tt
    searched_lem (some r) h =
        Yields-bind (IsGraph sets repo) (IsGraph sets repo) r (started sets repo cancel) h
          started_lem

    begun_lem :
        (fuel : ℕ) (r : Result (Graph sets repo))
        → Yields (IsGraph sets repo) r
        → Within (IsGraph sets repo) (elim r [
          | err e ↦ some (err e)
          | trap z ↦ some (trap z)
          | ok g ↦ elim (fetch_loop sets repo cancel fuel true g) [
            | none ↦ none
            | some s ↦ some (s >>= started sets repo cancel)
          ]
        ])
    begun_lem fuel (err e) h = tt
    begun_lem fuel (trap z) h = tt
    begun_lem fuel (ok g) h = searched_lem (fetch_loop sets repo cancel fuel true g) (
        Within-mono (IsNext sets repo g) (IsGraph sets repo)
          (fetch_loop sets repo cancel fuel true g) (λ g' k. k.0) (fetch_loop_lem fuel true g h))

    -- got_commit_graph_iter_start on a new graph for the whole history of the root directory leaves a
    -- graph whose open branches are not among its nodes, and whose list has nodes of the graph, each
    -- one once.
    pub iter_start-IsGraph :
        (fuel : ℕ) (path id : Bytes) (g : Graph sets repo)
        → is_root_dir path ≡ true
        → iter_start sets repo cancel fuel (graph_open sets repo path false) id ≡ some (ok g)
        → IsGraph sets repo g
    unfolding iter_start graph_open
    iter_start-IsGraph fuel path id g p e =
        let within : Within (IsGraph sets repo)
            (iter_start sets repo cancel fuel (graph_open sets repo path false) id) =
          begun_lem fuel (open_branch sets repo (graph_open sets repo path false) id)
            (opened_lem path id p) in
        let result : Within (IsGraph sets repo) (some (ok g)) = rw e at within in result
