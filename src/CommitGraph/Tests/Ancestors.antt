-- ===== src/CommitGraph/Tests/Ancestors.antt =====
-- The youngest common ancestor of two branches.
use gameoftrees.Base.{◌≡◌, refl, [], ◌∷◌, bytes_eq, some, memcmp}
use gameoftrees.Error.{ok}
use gameoftrees.ObjectIdset.{
  idset_add, idset_remove, remove_found, idset_contains, find_element, cmp_elements,
}
use gameoftrees.CommitGraph.{
  is_root_dir, insert_behind, add_node_to_iter_list, graph_open, detect_changed_path, add_node,
  open_branch, close_branch, open_parents, merge_loop, merged, same_content, follow_parents,
  advance_branch, add_branch_tips, tip_compared, tips_loop, fetch_commits_from_open_branches,
  fetch_loop, iter_start, iter_next,
}
use gameoftrees.CommitGraph.Sets.{is_no_obj}
use gameoftrees.CommitGraph.Idsets.{set_remove}
use gameoftrees.CommitGraph.Tests.{four_commits, sets}
use gameoftrees.CommitGraph.{first_parent_branch}
use gameoftrees.CommitGraph.Tests.{never}
use gameoftrees.CommitGraph.Youngest.{
  find_youngest_common_ancestor, yca_loop, next_id, visit, visit_other, is_completed,
}

-- Commits 2 and 3 have commit 1 as their parent.
branches_meet :
    find_youngest_common_ancestor sets four_commits never 9 9 (2 ∷ []) (3 ∷ []) ≡ some (ok (1 ∷ []))
unfolding is_root_dir insert_behind add_node_to_iter_list graph_open detect_changed_path add_node
    open_branch close_branch open_parents follow_parents advance_branch add_branch_tips tip_compared
    tips_loop fetch_commits_from_open_branches fetch_loop iter_start iter_next
    find_youngest_common_ancestor yca_loop next_id visit visit_other first_parent_branch
    is_completed set_remove idset_add idset_remove remove_found idset_contains find_element
    cmp_elements memcmp is_no_obj bytes_eq merge_loop merged same_content
branches_meet = refl

-- A commit is an ancestor of itself.
branch_itself :
    find_youngest_common_ancestor sets four_commits never 9 9 (3 ∷ []) (3 ∷ []) ≡ some (ok (3 ∷ []))
unfolding is_root_dir insert_behind add_node_to_iter_list graph_open detect_changed_path add_node
    open_branch close_branch open_parents follow_parents advance_branch add_branch_tips tip_compared
    tips_loop fetch_commits_from_open_branches fetch_loop iter_start iter_next
    find_youngest_common_ancestor yca_loop next_id visit visit_other first_parent_branch
    is_completed set_remove idset_add idset_remove remove_found idset_contains find_element
    cmp_elements memcmp is_no_obj bytes_eq merge_loop merged same_content
branch_itself = refl
