-- ===== src/FileIndex/Codec/Tests.antt =====
-- Runs of the index's file format on a concrete entry, and its theorems at it.
use gameoftrees.Base.{◌≡◌, refl, true, [], ◌∷◌, ◌++◌, Bytes, length, replicate, arith, append_assoc}
use gameoftrees.FileIndex.{entry_path_len}
use gameoftrees.FileIndex.Tree.{RbTree, Index, insert_sorted, find_sorted}
use gameoftrees.FileIndex.Tree.Counting.{IsValid}
use gameoftrees.FileIndex.Codec.{fileindex_write, fileindex_read}
use gameoftrees.FileIndex.Codec.File.{fileindex_read-fileindex_write}
use gameoftrees.Error.{ok}
use gameoftrees.FileIndex.{Entry, zeroed, entry_stage_get}
use gameoftrees.FileIndex.Codec.{
  Sha1, be_onto, pad_loop, path_pad, staged_chunks, entry_chunks, has_nul,
}
use gameoftrees.FileIndex.Codec.Numbers.{length-be_onto}
use gameoftrees.FileIndex.Codec.Entries.{IsStorable}

-- A checksum that stands for SHA1: the number of bytes, in 20 bytes.
abbrev checksum : Sha1
checksum = record {
  Ctx = Bytes;
  init = [];
  update = λ c b. c ++ b;
  final = λ c. be_onto 20 (length c) [];
  update_law = λ c a b. append_assoc c a b;
  final_law = λ c. length-be_onto 20 (length c) [];
}

-- "src/a" with stage "modify".
abbrev staged_entry : Entry
staged_entry = record zeroed {
  mtime_sec = 1600000000;
  size = 300;
  mode = 0x1a41;
  flags = 0x1005;
  path = b's' ∷ b'r' ∷ b'c' ∷ b'/' ∷ b'a' ∷ [];
  staged_blob_sha1 = replicate 20 7;
}

staged_entry-IsStorable : IsStorable staged_entry
unfolding has_nul
staged_entry-IsStorable = record {
  ctime_sec_fits = omega arith;
  ctime_nsec_fits = omega arith;
  mtime_sec_fits = omega arith;
  mtime_nsec_fits = omega arith;
  uid_fits = omega arith;
  gid_fits = omega arith;
  size_fits = omega arith;
  mode_fits = omega arith;
  flags_fit = omega arith;
  blob_length = refl;
  commit_length = refl;
  staged_length = refl;
  path_clean = refl;
}

-- Insertion and search in the sorted list stand for the red-black tree.
abbrev listed_tree : RbTree
listed_tree = record {
  insert = insert_sorted;
  find = find_sorted;
  insert_law = λ l x s. refl;
  find_law = λ l key s. refl;
}

abbrev staged_index : Index
staged_index = record { entries = staged_entry ∷ []; nentries = 1 }

staged_index-IsValid : IsValid staged_index
unfolding entry_path_len
staged_index-IsValid = ((tt, tt), ((ground arith, refl), tt), refl, omega arith)

fileindex_read-fileindex_write_example :
    (bytes : Bytes) × (fileindex_write checksum true staged_index 400 ≡ ok (staged_index, bytes))
    × (fileindex_read checksum listed_tree (λ n. true) (record { entries = []; nentries = 0 }) bytes
        ≡ ok staged_index)
unfolding entry_chunks staged_chunks path_pad pad_loop be_onto entry_stage_get
fileindex_read-fileindex_write_example =
    fileindex_read-fileindex_write checksum listed_tree (λ n. true) (λ n. refl) staged_index 400
      staged_index-IsValid (staged_entry-IsStorable, tt) (omega arith)
