-- ===== src/FileIndex/Tests.antt =====
-- Runs of lib/fileindex.c on a concrete index, and its theorems at it.
use gameoftrees.Base.{◌≡◌, ◌+◌, ◌⊎◌, refl, [], ◌∷◌, none, some, arith}
use gameoftrees.Error.{ok, err, no_space}
use gameoftrees.Path.Order.{lex}
use gameoftrees.FileIndex.{Entry, zeroed, entry_path_len}
use gameoftrees.FileIndex.Tree.{
  RbTree, Index, insert_sorted, find_sorted, entry_add, entry_remove, entry_get, int_max, remove_at,
}
use gameoftrees.FileIndex.Tree.Order.{IsProper, IsProper-not_flushed, fileindex_cmp-lex}
use gameoftrees.FileIndex.Tree.Counting.{
  IsValid, count_live, added, entry_add_lem, entry_remove_lem, entry_add-entry_remove,
}

-- Insertion and search in the sorted list stand for the red-black tree.
abbrev sorted_tree : RbTree
sorted_tree = record {
  insert = insert_sorted;
  find = find_sorted;
  insert_law = λ l x s. refl;
  find_law = λ l key s. refl;
}

abbrev file_a : Entry
file_a = record zeroed { path = b'a' ∷ []; flags = 0x20001; mode = 0x1a41 }

abbrev file_b : Entry
file_b = record zeroed { path = b'b' ∷ []; flags = 1 }

file_a-IsProper : IsProper file_a
unfolding entry_path_len
file_a-IsProper = (ground arith, refl)

file_b-IsProper : IsProper file_b
unfolding entry_path_len
file_b-IsProper = (ground arith, refl)

abbrev index_a : Index
index_a = record { entries = file_a ∷ []; nentries = 1 }

index_a-IsValid : IsValid index_a
index_a-IsValid = ((tt, tt), (file_a-IsProper, tt), refl, omega arith)

entry_remove_lem_example :
    IsValid (entry_remove index_a 0)
    × (entry_get sorted_tree (entry_remove index_a 0) (b'a' ∷ []) 1 ≡ none)
entry_remove_lem_example = entry_remove_lem sorted_tree index_a 0 file_a index_a-IsValid refl refl

b_absent : find_sorted (file_a ∷ []) (added sorted_tree file_b) ≡ none
unfolding lex
b_absent =
    rw
      (
        find_sorted,
        fileindex_cmp-lex (added sorted_tree file_b) file_a
            (IsProper-not_flushed file_b file_b-IsProper) file_a-IsProper,
      )
      refl

entry_add_lem_example :
    ((1 ≡ int_max) × (entry_add sorted_tree index_a file_b ≡ err no_space))
    ⊎ ((fileindex' : Index) × (entry_add sorted_tree index_a file_b ≡ ok fileindex')
        × IsValid fileindex'
        × (entry_get sorted_tree fileindex' (b'b' ∷ []) 1 ≡ some (added sorted_tree file_b)))
entry_add_lem_example =
    entry_add_lem sorted_tree file_b index_a index_a-IsValid file_b-IsProper refl b_absent

-- The file "a" is removed and added again before the index is written.
entry_add-entry_remove_example :
    (fileindex' : Index) × (entry_add sorted_tree (entry_remove index_a 0) file_a ≡ ok fileindex')
    × (fileindex'.entries ≡ remove_at (file_a ∷ []) 0)
    × (fileindex'.nentries ≡ count_live fileindex'.entries + 1)
    × (entry_get sorted_tree fileindex' (b'a' ∷ []) 1 ≡ none)
entry_add-entry_remove_example =
    entry_add-entry_remove sorted_tree file_a index_a 0 file_a index_a-IsValid refl refl
      file_a-IsProper refl
