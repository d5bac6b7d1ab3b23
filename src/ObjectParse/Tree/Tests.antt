-- ===== src/ObjectParse/Tree/Tests.antt =====
-- A tree of a file and a directory.
use gameoftrees.Base.{refl, [], ◌∷◌, arith, replicate}
use gameoftrees.ObjectParse.Tree.{parse_tree}
use gameoftrees.ObjectParse.Tree.RoundTrip.{TreeItem, IsItem, tree_text}
use gameoftrees.ObjectParse.Tree.Listing.{IsListing, parse_tree-tree_text}

-- Mode 100644 and the name "ab".
abbrev file_item : TreeItem
file_item = record {
  digits = 1 ∷ 0 ∷ 0 ∷ 6 ∷ 4 ∷ 4 ∷ [];
  name = b'a' ∷ b'b' ∷ [];
  id = replicate 20 0;
}

-- Mode 40000 and the name "c".
abbrev dir_item : TreeItem
dir_item = record { digits = 4 ∷ 0 ∷ 0 ∷ 0 ∷ 0 ∷ []; name = b'c' ∷ []; id = replicate 20 0x20 }

file-IsItem : IsItem file_item
file-IsItem = record {
  some_digits = omega arith;
  octal_digits =
      (omega arith, (omega arith, (omega arith, (omega arith, (omega arith, (omega arith, tt))))));
  small = omega arith;
  name_text = (omega arith, (omega arith, tt));
  whole_id = refl;
}

dir-IsItem : IsItem dir_item
dir-IsItem = record {
  some_digits = omega arith;
  octal_digits = (omega arith, (omega arith, (omega arith, (omega arith, (omega arith, tt)))));
  small = omega arith;
  name_text = (omega arith, tt);
  whole_id = refl;
}

parse_tree-tree_text_example :
    IsListing (file_item ∷ dir_item ∷ []) (parse_tree (tree_text (file_item ∷ dir_item ∷ [])))
parse_tree-tree_text_example =
    parse_tree-tree_text (file_item ∷ dir_item ∷ []) (file-IsItem, (dir-IsItem, tt))
      (ground arith, (ground arith, tt))
