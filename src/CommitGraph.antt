-- ===== src/CommitGraph.antt =====
-- lib/commit_graph.c: the commits of a history, one after the other. Sets of identifiers are an
-- interface; opening objects, and the traversal in a pack file, are parameters, as is the callback
-- that cancels.
pub mod Sets
pub mod IterList
pub mod Steps
pub mod Tips
pub mod Loop
pub mod Fetch
pub mod Once
pub mod Unseen
pub mod Bound
pub mod Ends
pub mod Walk
pub mod Traversal
pub mod Youngest
pub mod Idsets
mod Tests
use gameoftrees.Base.{
  ℕ, zero, suc, ◌+◌, ◌≡◌, Bool, true, false, ◌&&◌, ◌||◌, not, List, [], ◌∷◌, ◌++◌, Bytes, bytes_eq,
  Option, none, some, ltb, leb, ◌==◌, if◌then◌else◌,
}
use gameoftrees.Error.{
  iter_busy, iter_completed, no_obj, no_tree_entry, ancestry, Error, Result, ok, err, trap, ◌>>=◌,
}
use gameoftrees.CommitGraph.Sets.{IdSets, is_no_obj}

pub record GraphNode : Type 0 where
  pub id : Bytes
  pub timestamp : ℕ

-- Of an opened commit, what the graph reads.
pub record HistoryCommit : Type 0 where
  pub tree_id : Bytes
  pub parent_ids : List Bytes
  pub nparents : ℕ
  pub committer_time : ℕ
  pub packed : Bool

pub record Repository : Type 1 where
  pub TreeObject : Type 0
  pub open_as_commit : Bytes → Result HistoryCommit
  pub open_as_tree : Bytes → Result TreeObject
  pub tree_path_changed : TreeObject → TreeObject → Bytes → Result Bool
  -- got_object_id_by_path in a commit
  pub id_by_path : Bytes → Bytes → Result Bytes
  pub traverse_packed_commits : Bytes → Bytes → Result (List Bytes)

-- got_path_is_root_dir
pub is_root_dir : Bytes → Bool
is_root_dir [] = true
is_root_dir (c ∷ path) = c == b'/' && is_root_dir path

-- Behind the first node, which stays where it is.
pub insert_behind : GraphNode → List GraphNode → List GraphNode
insert_behind node [] = node ∷ []
insert_behind node (next ∷ nodes) =
    let later = insert_behind node nodes in
    if leb next.timestamp node.timestamp then node ∷ next ∷ nodes else next ∷ later

pub add_node_to_iter_list : List GraphNode → GraphNode → List GraphNode
add_node_to_iter_list [] node = node ∷ []
add_node_to_iter_list (n ∷ nodes) node = n ∷ insert_behind node nodes

module _ (sets : IdSets) (repo : Repository) where
  pub record Graph : Type 0 where
    pub node_ids : sets.Set
    pub first_parent : Bool
    pub open_branches : sets.Set
    pub path : Bytes
    pub iter_list : List GraphNode

  -- Memory is taken to be there.
  pub graph_open : Bytes → Bool → Graph
  graph_open path first_parent_traversal = record {
    node_ids = sets.empty;
    first_parent = first_parent_traversal;
    open_branches = sets.empty;
    path = path;
    iter_list = [];
  }

  abbrev pub only_known : Result Bytes → Result Bool
  only_known (ok id) = ok true
  only_known (err no_tree_entry) = ok false
  only_known (err e) = err e
  only_known (trap z) = trap z

  pub detect_changed_path : HistoryCommit → Bytes → Bytes → Result Bool
  detect_changed_path commit commit_id path =
      if is_root_dir path then ok true else elim commit.parent_ids [
        | [] ↦ only_known (repo.id_by_path commit_id path)
        | pid ∷ pids ↦ repo.open_as_tree commit.tree_id >>= λ tree.
            repo.open_as_commit pid >>= λ pcommit.
            repo.open_as_tree pcommit.tree_id >>= λ ptree. repo.tree_path_changed tree ptree path
      ]

  pub add_node : Graph → Bytes → Result Graph
  add_node g commit_id =
      sets.add g.node_ids commit_id >>= λ node_ids. ok (record g { node_ids = node_ids })

  pub open_branch : Graph → Bytes → Result Graph
  open_branch g id = sets.add g.open_branches id >>= λ open_branches.
      ok (record g { open_branches = open_branches })

  -- The loop over the commits that were traversed, and how many of them there are.
  pub traversed_loop : ℕ → Graph → List Bytes → Result (ℕ × Graph)
  traversed_loop n g [] = ok (n, g)
  traversed_loop n g (qid ∷ []) =
      if sets.contains g.open_branches qid || sets.contains g.node_ids qid
      then ok (n, g)
      else open_branch g qid >>= λ g'. ok (n + 1, g')
  traversed_loop n g (qid ∷ next ∷ qids) =
      if sets.contains g.open_branches qid || sets.contains g.node_ids qid
      then traversed_loop n g (next ∷ qids)
      else add_node g qid >>= λ g'. traversed_loop (n + 1) g' (next ∷ qids)

  pub packed_first_parent_traversal : Graph → Bytes → Result (ℕ × Graph)
  packed_first_parent_traversal g commit_id =
      repo.traverse_packed_commits commit_id g.path >>= traversed_loop 0 g

  -- The branch need not be open.
  abbrev pub closed : Graph → Result sets.Set → Result Graph
  closed g (ok s) = ok (record g { open_branches = s })
  closed g (err e) = if is_no_obj e then ok g else err e
  closed g (trap z) = trap z

  pub close_branch : Graph → Bytes → Result Graph
  close_branch g commit_id = closed g (sets.remove g.open_branches commit_id)

  -- The first parent alone.
  pub first_parent_branch : Graph → HistoryCommit → List Bytes → Result Graph
  first_parent_branch g commit [] = ok g
  first_parent_branch g commit (qid ∷ qids) =
      if sets.contains g.open_branches qid
      then ok g
      else if not (is_root_dir g.path) && commit.packed
      then (packed_first_parent_traversal g qid >>= λ (ncommits, g').
          if ltb 0 ncommits then ok g' else open_branch g' qid)
      else open_branch g qid

  -- `!branches_differ && got_object_id_cmp(id, prev_id) != 0`, where there is a previous one.
  abbrev pub differ : Bool → Option Bytes → Bytes → Bool
  differ branches_differ none id = branches_differ
  differ branches_differ (some prev_id) id = branches_differ || not (bytes_eq id prev_id)

  -- The loop over the parents of a merge, for a path: a graph with the branch that has created
  -- the content, or whether the branches differ.
  pub data Merge : Type 0 where
    created : Graph → Merge
    compared : Bool → Merge

  -- A parent of the merge that has the path, does not have it, or cannot be searched.
  abbrev pub merge_parent :
      Graph → Bytes → Bytes → Result Merge → (Bytes → Result Merge) → Result Bytes → Result Merge
  merge_parent g merged_id qid missing onward (err no_tree_entry) = missing
  merge_parent g merged_id qid missing onward (err e) = err e
  merge_parent g merged_id qid missing onward (trap z) = trap z
  merge_parent g merged_id qid missing onward (ok id) =
      let others = onward id in
      if bytes_eq merged_id id then (open_branch g qid >>= λ g'. ok (created g')) else others

  pub merge_loop : Graph → Bytes → Option Bytes → Bool → List Bytes → Result Merge
  merge_loop g merged_id prev_id branches_differ [] = ok (compared branches_differ)
  merge_loop g merged_id prev_id branches_differ (qid ∷ qids) =
      let skipped = merge_loop g merged_id prev_id branches_differ qids in
      let missing = merge_loop g merged_id prev_id true qids in
      let onward =
        λ (id : Bytes). merge_loop g merged_id (some id) (differ branches_differ prev_id id) qids in
      if sets.contains g.open_branches qid
      then skipped
      else merge_parent g merged_id qid missing onward (repo.id_by_path qid g.path)

  -- The parents that are neither open nor traversed.
  pub open_parents : Graph → List Bytes → Result Graph
  open_parents g [] = ok g
  open_parents g (qid ∷ qids) =
      let skipped = open_parents g qids in
      if sets.contains g.open_branches qid || sets.contains g.node_ids qid
      then skipped
      else open_branch g qid >>= λ g'. open_parents g' qids

  -- Of a path whose content is the same on all branches.
  pub same_content : Graph → List Bytes → Result Graph
  same_content g [] = ok g
  same_content g (qid ∷ qids) =
      if sets.contains g.open_branches qid || sets.contains g.node_ids qid
      then ok g
      else open_branch g qid

  pub merged : Graph → List Bytes → Merge → Result Graph
  merged g parent_ids (created g') = ok g'
  merged g parent_ids (compared true) = open_parents g parent_ids
  merged g parent_ids (compared false) = same_content g parent_ids

  -- Behind the closing of the commit's branch.
  pub follow_parents : Graph → Bytes → HistoryCommit → Result Graph
  follow_parents g commit_id commit =
      if g.first_parent
      then first_parent_branch g commit commit.parent_ids
      else if ltb 1 commit.nparents && not (is_root_dir g.path)
      then (repo.id_by_path commit_id g.path >>= λ merged_id.
          merge_loop g merged_id none false commit.parent_ids >>= merged g commit.parent_ids)
      else open_parents g commit.parent_ids

  pub advance_branch : Graph → Bytes → HistoryCommit → Result Graph
  advance_branch g commit_id commit =
      close_branch g commit_id >>= λ g'. follow_parents g' commit_id commit

  -- The tips in the order of the open branches, and the graph with their nodes.
  pub add_branch_tips : Graph → List Bytes → Result (List (Bytes × HistoryCommit) × Graph)
  add_branch_tips g [] = ok ([], g)
  add_branch_tips g (id ∷ ids) = do
    commit ← repo.open_as_commit id
    g1 ← add_node g id
    (tips, g2) ← add_branch_tips g1 ids
    ok ((id, commit) ∷ tips, g2)

  -- A tip, once its path has been compared with its first parent's.
  pub tip_compared : Graph → Bytes → HistoryCommit → Result Bool → Result Graph
  tip_compared g id commit (err e) = if is_no_obj e then close_branch g id else err e
  tip_compared g id commit (trap z) = trap z
  tip_compared g id commit (ok false) = advance_branch g id commit
  tip_compared g id commit (ok true) =
      let node : GraphNode = record { id = id; timestamp = commit.committer_time } in
      advance_branch (record g { iter_list = add_node_to_iter_list g.iter_list node }) id commit

  module _ (cancel : Graph → Result (Unit {0})) where
    pub tips_loop : Graph → List (Bytes × HistoryCommit) → Result Graph
    tips_loop g [] = ok g
    tips_loop g ((id, commit) ∷ tips) = do
      stop ← cancel g
      g' ← tip_compared g id commit (detect_changed_path commit id g.path)
      tips_loop g' tips

    pub fetch_commits_from_open_branches : Graph → Result Graph
    fetch_commits_from_open_branches g =
        if sets.num_elements g.open_branches == 0
        then ok g
        else add_branch_tips g (sets.ids g.open_branches) >>= λ (tips, g'). tips_loop g' tips

    -- Whether the list is too short: empty at the start, or of one node in the search for the next.
    abbrev pub needs_more : Bool → List GraphNode → Bool
    needs_more starting [] = starting
    needs_more starting (n ∷ []) = not starting
    needs_more starting (n ∷ m ∷ nodes) = false

    -- The loop that fetches; a round takes one of the fuel, and `none` is a run that needs more.
    pub fetch_loop : ℕ → Bool → Graph → Option (Result Graph)
    fetch_loop zero starting g = none
    fetch_loop (suc fuel) starting g =
        let more =
          needs_more starting g.iter_list && not (sets.num_elements g.open_branches == 0) in
        if not more then some (ok g) else elim (fetch_commits_from_open_branches g) [
          | ok g' ↦ fetch_loop fuel starting g'
          | err e ↦ some (err e)
          | trap z ↦ some (trap z)
        ]

    -- The first node stays the first while commits are fetched.
    abbrev pub take_first : Graph → List GraphNode → Result (Bytes × Graph)
    take_first g [] = err iter_completed
    take_first g (node ∷ nodes) = ok (node.id, record g { iter_list = nodes })

    -- An error or a hazard leaves the graph as it was; the code leaves it as far as it had come, and
    -- a caller that goes on with such a graph is not modelled.
    pub iter_next : ℕ → Graph → Option (Result (Bytes × Graph))
    iter_next fuel g =
        if needs_more true g.iter_list
        then some (err iter_completed)
        else elim (fetch_loop fuel false g) [
          | none ↦ none
          | some r ↦ some (r >>= λ g'. take_first g' g'.iter_list)
        ]

    -- The test behind the loop.
    abbrev pub started : Graph → Result Graph
    started g =
        if not (needs_more true g.iter_list)
        then ok g
        else if is_root_dir g.path
        then err no_obj
        else err no_tree_entry

    pub iter_start : ℕ → Graph → Bytes → Option (Result Graph)
    iter_start fuel g id =
        if not (needs_more true g.iter_list)
        then some (err iter_busy)
        else elim (open_branch g id) [
          | err e ↦ some (err e)
          | trap z ↦ some (trap z)
          | ok g' ↦ elim (fetch_loop fuel true g') [ none ↦ none | some r ↦ some (r >>= started) ]
        ]
