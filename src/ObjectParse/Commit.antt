-- ===== src/ObjectParse/Commit.antt =====
-- got_object_parse_commit of lib/object_parse.c.
pub mod Rounds
use gameoftrees.Base.{
  ℕ, zero, suc, ◌+◌, List, [], ◌∷◌, ◌++◌, Bytes, Option, none, some, if◌then◌else◌, length, drop,
}
use gameoftrees.Error.{bad_obj_data, out_of_bounds, Result, ok, err, trap, ◌>>=◌}
use gameoftrees.ObjectParse.Tree.{string_of}
use gameoftrees.ObjectParse.Fields.{starts_with, take_id, Signature, optional_signature}

abbrev pub tree_prefix : Bytes
tree_prefix = b't' ∷ b'r' ∷ b'e' ∷ b'e' ∷ b' ' ∷ []

abbrev pub parent_prefix : Bytes
parent_prefix = b'p' ∷ b'a' ∷ b'r' ∷ b'e' ∷ b'n' ∷ b't' ∷ b' ' ∷ []

abbrev pub author_prefix : Bytes
author_prefix = b'a' ∷ b'u' ∷ b't' ∷ b'h' ∷ b'o' ∷ b'r' ∷ b' ' ∷ []

abbrev pub committer_prefix : Bytes
committer_prefix = b'c' ∷ b'o' ∷ b'm' ∷ b'm' ∷ b'i' ∷ b't' ∷ b't' ∷ b'e' ∷ b'r' ∷ b' ' ∷ []

-- The names, times and offsets are NULL and 0 where the commit has no line for them.
pub record Commit : Type 0 where
  pub tree_id : Bytes
  pub parent_ids : List Bytes
  pub nparents : ℕ
  pub author : Option Signature
  pub committer : Option Signature
  pub logmsg : Bytes

-- The identifiers so far, their number and what follows. A round takes 48 bytes, so that as much
-- fuel as bytes is used up only when nothing is left, where strncmp(3) reads past the end.
pub parent_loop : ℕ → List Bytes → ℕ → Bytes → Result (List Bytes × ℕ × Bytes)
parent_loop zero ids nparents s = trap out_of_bounds
parent_loop (suc fuel) ids nparents s = do
  found ← starts_with parent_prefix s
  if found
      then (take_id (drop 7 s) >>= λ (id, rest).
          parent_loop fuel (ids ++ (id ∷ [])) (nparents + 1) rest)
      else ok (ids, nparents, s)

-- Behind the tree's label.
pub commit_fields : Bytes → Result Commit
commit_fields s = do
  (tree_id, s1) ← take_id s
  (parent_ids, nparents, s2) ← parent_loop (length s1) [] 0 s1
  (author, s3) ← optional_signature author_prefix s2
  (committer, s4) ← optional_signature committer_prefix s3
  ok record {
    tree_id = tree_id;
    parent_ids = parent_ids;
    nparents = nparents;
    author = author;
    committer = committer;
    logmsg = string_of s4;
  }

pub parse_commit : Bytes → Result Commit
parse_commit [] = err bad_obj_data
parse_commit (c ∷ buf) = do
  found ← starts_with tree_prefix (c ∷ buf)
  if found then commit_fields (drop 5 (c ∷ buf)) else err bad_obj_data
