-- ===== src/CommitGraph/Tests/Merges.antt =====
-- The history of a path, in which a commit is passed twice.
use gameoftrees.Base.{
  ℕ, zero, suc, ◌||◌, ◌≡◌, refl, false, List, [], ◌∷◌, Bytes, bytes_eq, none, some, memcmp,
  if◌then◌else◌,
}
use gameoftrees.Error.{Result, ok, err, trap}
use gameoftrees.ObjectIdset.{
  idset_add, idset_remove, remove_found, idset_contains, find_element, cmp_elements,
}
use gameoftrees.CommitGraph.{
  HistoryCommit, Repository, is_root_dir, insert_behind, add_node_to_iter_list, Graph, graph_open,
  detect_changed_path, add_node, open_branch, close_branch, open_parents, merge_loop, merged,
  same_content, follow_parents, advance_branch, add_branch_tips, tip_compared, tips_loop,
  fetch_commits_from_open_branches, fetch_loop, iter_start, iter_next,
}
use gameoftrees.CommitGraph.Sets.{is_no_obj}
use gameoftrees.CommitGraph.Idsets.{set_remove}
use gameoftrees.CommitGraph.Tests.{plain_commit, four_commits, sets}

-- A path whose content is of commit 3 in commits 5 and 6, and another one in commits 4 and 7.
abbrev blob_of : Bytes → Bytes → Result Bytes
blob_of id path =
    if bytes_eq id (3 ∷ []) || bytes_eq id (5 ∷ []) || bytes_eq id (6 ∷ [])
    then ok (9 ∷ [])
    else ok id

-- Commit 7 merges 6 and 4; 6 is behind 5, which merges 3 and 2; 4 is behind 3 as well.
abbrev merges : Bytes → Result HistoryCommit
merges id =
    if bytes_eq id (7 ∷ [])
    then ok (plain_commit ((6 ∷ []) ∷ (4 ∷ []) ∷ []) 2 70)
    else if bytes_eq id (6 ∷ [])
    then ok (plain_commit ((5 ∷ []) ∷ []) 1 60)
    else if bytes_eq id (5 ∷ [])
    then ok (plain_commit ((3 ∷ []) ∷ (2 ∷ []) ∷ []) 2 50)
    else if bytes_eq id (4 ∷ [])
    then ok (plain_commit ((3 ∷ []) ∷ []) 1 40)
    else if bytes_eq id (3 ∷ [])
    then ok (plain_commit ((1 ∷ []) ∷ []) 1 30)
    else ok (plain_commit [] 0 10)

abbrev seven_commits : Repository
seven_commits = record four_commits { open_as_commit = merges; id_by_path = blob_of }

-- The commits that are passed, one call after the other.
abbrev walk : ℕ → Graph sets seven_commits → List Bytes
walk zero g = []
walk (suc calls) g = elim (iter_next sets seven_commits (λ h. ok tt) 9 g) [
  | some r ↦ elim r [ ok step ↦ step.0 ∷ walk calls step.1 | err e ↦ [] | trap z ↦ [] ]
  | none ↦ []
]

abbrev path_history : List Bytes
path_history =
    elim (iter_start sets seven_commits (λ h. ok tt) 9
      (graph_open sets seven_commits (b'a' ∷ []) false) (7 ∷ [])) [
        | some r ↦ elim r [ ok g ↦ walk 9 g | err e ↦ [] | trap z ↦ [] ]
        | none ↦ []
      ]

-- Commit 3 is passed twice.
path_history_twice :
    path_history ≡ (7 ∷ []) ∷ (6 ∷ []) ∷ (4 ∷ []) ∷ (5 ∷ []) ∷ (3 ∷ []) ∷ (3 ∷ []) ∷ (1 ∷ []) ∷ []
unfolding is_root_dir insert_behind add_node_to_iter_list graph_open detect_changed_path add_node
    open_branch close_branch open_parents follow_parents advance_branch add_branch_tips tip_compared
    tips_loop fetch_commits_from_open_branches fetch_loop iter_start iter_next set_remove idset_add
    idset_remove remove_found idset_contains find_element cmp_elements memcmp is_no_obj bytes_eq
    merge_loop merged same_content
path_history_twice = refl
