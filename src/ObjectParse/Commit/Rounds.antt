-- ===== src/ObjectParse/Commit/Rounds.antt =====
-- got_object_parse_commit, line by line.
use gameoftrees.Base.{
  ℕ, suc, ◌+◌, ◌≡◌, refl, true, false, List, [], ◌∷◌, ◌++◌, Bytes, Option, length, drop,
}
use gameoftrees.Error.{ok}
use gameoftrees.ObjectParse.Tree.{string_of}
use gameoftrees.ObjectParse.Fields.{starts_with, take_id, Signature, optional_signature}
use gameoftrees.ObjectParse.Commit.{
  tree_prefix, parent_prefix, author_prefix, committer_prefix, parent_loop, commit_fields,
  parse_commit,
}

pub parent_loop_end :
    (fuel n : ℕ) (seen : List Bytes) (s : Bytes)
    → starts_with parent_prefix s ≡ ok false
    → parent_loop (suc fuel) seen n s ≡ ok (seen, n, s)
unfolding parent_loop
parent_loop_end fuel n seen s e = rw e refl

pub parent_loop_round :
    (fuel n : ℕ) (seen : List Bytes) (s id rest : Bytes)
    → starts_with parent_prefix s ≡ ok true
    → take_id (drop 7 s) ≡ ok (id, rest)
    → parent_loop (suc fuel) seen n s ≡ parent_loop fuel (seen ++ (id ∷ [])) (n + 1) rest
unfolding parent_loop
parent_loop_round fuel n seen s id rest e t = rw (e, t) refl

-- The parts of a commit, each behind the one before.
pub parse_commit_parts :
    (s tree_id s1 : Bytes) (ids : List Bytes) (n : ℕ) (s2 s3 s4 : Bytes) (a c : Option Signature)
    → take_id s ≡ ok (tree_id, s1)
    → parent_loop (length s1) [] 0 s1 ≡ ok (ids, n, s2)
    → optional_signature author_prefix s2 ≡ ok (a, s3)
    → optional_signature committer_prefix s3 ≡ ok (c, s4)
    → parse_commit (tree_prefix ++ s)
      ≡ ok (record {
        tree_id = tree_id;
        parent_ids = ids;
        nparents = n;
        author = a;
        committer = c;
        logmsg = string_of s4;
      })
unfolding parse_commit commit_fields
parse_commit_parts s tree_id s1 ids n s2 s3 s4 a c e1 e2 e3 e4 = rw (e1, e2, e3, e4) refl
