-- ===== src/CommitGraph/Tests.antt =====
-- A history with a merge, followed.
mod Merges
mod Ancestors
use gameoftrees.Base.{
  All, inl, inr, sym, ap, ◌∙◌, ℕ, zero, suc, ◌||◌, ◌≡◌, ◌≢◌, refl, true, false, List, [], ◌∷◌,
  Bytes, bytes_eq, Option, none, some, arith, memcmp, if◌then◌else◌,
}
use gameoftrees.Error.{Yields, no_obj, no_tree_entry, Result, ok, err, trap}
use gameoftrees.ObjectIdset.{
  idset_add, idset_remove, remove_found, idset_contains, find_element, cmp_elements,
}
use gameoftrees.ObjectIdset.Spine.{spine_ops}
use gameoftrees.CommitGraph.{
  GraphNode, HistoryCommit, Repository, is_root_dir, insert_behind, add_node_to_iter_list, Graph,
  graph_open, detect_changed_path, add_node, open_branch, close_branch, open_parents, merge_loop,
  merged, same_content, follow_parents, advance_branch, add_branch_tips, tip_compared, tips_loop,
  fetch_commits_from_open_branches, fetch_loop, iter_start, iter_next,
}
use gameoftrees.CommitGraph.Sets.{IsIn, IsDistinct, IdSets, is_no_obj}
use gameoftrees.CommitGraph.Idsets.{idset_sets, set_remove}
use gameoftrees.CommitGraph.IterList.{IsDescending, IsPlaced, add_node_to_iter_list_lem}
use gameoftrees.CommitGraph.Loop.{IsGraph, IsGone}
use gameoftrees.CommitGraph.Bound.{IsHistory}
use gameoftrees.CommitGraph.Walk.{walk, traversal}
use gameoftrees.CommitGraph.Traversal.{traversal_ends}
use gameoftrees.CommitGraph.Once.{iter_next-IsGone, iter_start-IsGraph}

abbrev plain_commit : List Bytes → ℕ → ℕ → HistoryCommit
plain_commit parents n time = record {
  tree_id = [];
  parent_ids = parents;
  nparents = n;
  committer_time = time;
  packed = false;
}

-- Of four commits the last merges two that have one parent.
abbrev history : Bytes → Result HistoryCommit
history id =
    if bytes_eq id (4 ∷ [])
    then ok (plain_commit ((2 ∷ []) ∷ (3 ∷ []) ∷ []) 2 40)
    else if bytes_eq id (3 ∷ [])
    then ok (plain_commit ((1 ∷ []) ∷ []) 1 30)
    else if bytes_eq id (2 ∷ [])
    then ok (plain_commit ((1 ∷ []) ∷ []) 1 20)
    else if bytes_eq id (1 ∷ [])
    then ok (plain_commit [] 0 10)
    else err no_obj

abbrev four_commits : Repository
four_commits = record {
  TreeObject = Unit {0};
  open_as_commit = history;
  open_as_tree = λ id. ok tt;
  tree_path_changed = λ t1 t2 path. ok true;
  id_by_path = λ id path. err no_tree_entry;
  traverse_packed_commits = λ id path. ok [];
}

abbrev sets : IdSets
sets = idset_sets spine_ops

abbrev never : Graph sets four_commits → Result (Unit {0})
never g = ok tt

abbrev at_start : Option (Result (Graph sets four_commits))
at_start =
    iter_start sets four_commits never 9 (graph_open sets four_commits (b'/' ∷ []) false) (4 ∷ [])

abbrev graph_of : Option (Result (Graph sets four_commits)) → Graph sets four_commits
graph_of (some (ok g)) = g
graph_of _ = graph_open sets four_commits [] false

root_path : is_root_dir (b'/' ∷ []) ≡ true
unfolding is_root_dir
root_path = refl

started_ok : at_start ≡ some (ok (graph_of at_start))
unfolding is_root_dir insert_behind add_node_to_iter_list graph_open detect_changed_path add_node
    open_branch close_branch open_parents follow_parents advance_branch add_branch_tips tip_compared
    tips_loop fetch_commits_from_open_branches fetch_loop iter_start iter_next set_remove idset_add
    idset_remove remove_found idset_contains find_element cmp_elements memcmp is_no_obj bytes_eq
started_ok = refl

abbrev passed : Option (Result (Bytes × Graph sets four_commits))
passed = iter_next sets four_commits never 9 (graph_of at_start)

abbrev graph_behind : Option (Result (Bytes × Graph sets four_commits)) → Graph sets four_commits
graph_behind (some (ok (id, g))) = g
graph_behind _ = graph_open sets four_commits [] false

passed_ok : passed ≡ some (ok (4 ∷ [], graph_behind passed))
unfolding is_root_dir insert_behind add_node_to_iter_list graph_open detect_changed_path add_node
    open_branch close_branch open_parents follow_parents advance_branch add_branch_tips tip_compared
    tips_loop fetch_commits_from_open_branches fetch_loop iter_start iter_next set_remove idset_add
    idset_remove remove_found idset_contains find_element cmp_elements memcmp is_no_obj bytes_eq
passed_ok = refl

iter_next-IsGone_example :
    IsGraph sets four_commits (graph_behind passed)
    × IsGone sets four_commits (4 ∷ []) (graph_behind passed)
    × ((q : Bytes)
        → IsGone sets four_commits q (graph_of at_start)
        → ((4 ∷ []) ≢ q) × IsGone sets four_commits q (graph_behind passed))
iter_next-IsGone_example =
    iter_next-IsGone sets four_commits never 9 (graph_of at_start) (4 ∷ []) (graph_behind passed)
      (iter_start-IsGraph sets four_commits never 9 (b'/' ∷ []) (4 ∷ []) (graph_of at_start)
        root_path started_ok)
      passed_ok

iter_start-IsGraph_example : IsGraph sets four_commits (graph_of at_start)
iter_start-IsGraph_example =
    iter_start-IsGraph sets four_commits never 9 (b'/' ∷ []) (4 ∷ []) (graph_of at_start) root_path
      started_ok

abbrev node_at : ℕ → GraphNode
node_at time = record { id = time ∷ []; timestamp = time }

add_node_to_iter_list_lem_example :
    (nodes' : List GraphNode) × (add_node_to_iter_list
        (node_at 1 ∷ node_at 5 ∷ node_at 2 ∷ [])
        (node_at 3)
      ≡ node_at 1 ∷ nodes')
    × IsDescending nodes'
    × IsPlaced (node_at 3) (node_at 5 ∷ node_at 2 ∷ []) nodes'
add_node_to_iter_list_lem_example =
    add_node_to_iter_list_lem (node_at 1) (node_at 3) (node_at 5 ∷ node_at 2 ∷ [])
      ((omega arith, tt), (tt, tt))

abbrev all_four : List Bytes
all_four = (4 ∷ []) ∷ (3 ∷ []) ∷ (2 ∷ []) ∷ (1 ∷ []) ∷ []

commit_parents :
    (p c : HistoryCommit)
    → ok p ≡ ok c
    → All (λ q. IsIn q all_four) p.parent_ids
    → All (λ q. IsIn q all_four) c.parent_ids
commit_parents p c e h = let same : p ≡ c = cc in rw (← same) h

opens_as :
    (id known : Bytes) (p c : HistoryCommit)
    → id ≡ known
    → history known ≡ ok p
    → history id ≡ ok c
    → ok p ≡ ok c
opens_as id known p c e h k = sym h ∙ ap history (sym e) ∙ k

four-IsHistory : IsHistory four_commits all_four
unfolding bytes_eq
four-IsHistory id c (inl e) k =
    let p = plain_commit ((2 ∷ []) ∷ (3 ∷ []) ∷ []) 2 40 in
    commit_parents p c (opens_as id (4 ∷ []) p c e refl k)
      (inr (inr (inl refl)), (inr (inl refl), tt))
four-IsHistory id c (inr (inl e)) k =
    let p = plain_commit ((1 ∷ []) ∷ []) 1 30 in
    commit_parents p c (opens_as id (3 ∷ []) p c e refl k) (inr (inr (inr (inl refl))), tt)
four-IsHistory id c (inr (inr (inl e))) k =
    let p = plain_commit ((1 ∷ []) ∷ []) 1 20 in
    commit_parents p c (opens_as id (2 ∷ []) p c e refl k) (inr (inr (inr (inl refl))), tt)
four-IsHistory id c (inr (inr (inr (inl e)))) k =
    let p = plain_commit [] 0 10 in commit_parents p c (opens_as id (1 ∷ []) p c e refl k) tt
four-IsHistory id c (inr (inr (inr (inr e)))) k = absurd e

traversal_ends_example :
    (l : List Bytes) × (traversal sets four_commits never 5 5 (b'/' ∷ []) (4 ∷ []) ≡ some l)
    × IsDistinct l
    × All (λ q. IsIn q all_four) l
traversal_ends_example =
    traversal_ends sets four_commits all_four four-IsHistory never 5 5 (b'/' ∷ []) (4 ∷ [])
      root_path (inl refl) (omega arith) (omega arith)

-- The commits of the history from the youngest on.
four_passed :
    traversal sets four_commits never 5 5 (b'/' ∷ []) (4 ∷ [])
    ≡ some ((4 ∷ []) ∷ (3 ∷ []) ∷ (2 ∷ []) ∷ (1 ∷ []) ∷ [])
unfolding is_root_dir insert_behind add_node_to_iter_list graph_open detect_changed_path add_node
    open_branch close_branch open_parents follow_parents advance_branch add_branch_tips tip_compared
    tips_loop fetch_commits_from_open_branches fetch_loop iter_start iter_next set_remove idset_add
    idset_remove remove_found idset_contains find_element cmp_elements memcmp is_no_obj bytes_eq
    walk
four_passed = refl
