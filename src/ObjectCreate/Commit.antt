-- ===== src/ObjectCreate/Commit.antt =====
-- got_object_commit_create of lib/object_create.c.
pub mod Text
pub mod RoundTrip
use gameoftrees.Base.{ℕ, ◌+◌, ◌*◌, ◌%◌, ◌^◌, List, [], ◌∷◌, ◌++◌, Bytes, Option, none, some, length}
use gameoftrees.Base.Int.{ℤ}
use gameoftrees.Digest.{digest_text}
use gameoftrees.FileIndex.Codec.{Sha1}
use gameoftrees.ObjectParse.Header.{commit_label}
use gameoftrees.ObjectParse.Commit.{tree_prefix, parent_prefix, author_prefix, committer_prefix}
use gameoftrees.ObjectCreate.{
  Step, update, fwrite, print_signed, header_text, person_text, id_line, trim, written,
}

-- What the caller passes.
pub record NewCommit : Type 0 where
  pub tree_id : Bytes
  pub parent_ids : List Bytes
  pub nparents : ℕ
  pub author : Bytes
  pub author_time : ℤ
  pub committer : Option (Bytes × ℤ)
  pub logmsg : Bytes

abbrev pub author_text : NewCommit → Bytes
author_text c = person_text author_prefix c.author c.author_time

-- The author with the author's time where there is no committer.
abbrev pub committer_line : Bytes → ℤ → Option (Bytes × ℤ) → Bytes
committer_line author time none = person_text committer_prefix author time
committer_line author time (some (committer, committer_time)) =
    person_text committer_prefix committer committer_time

abbrev pub committer_text : NewCommit → Bytes
committer_text c = committer_line c.author c.author_time c.committer

abbrev pub commit_len : NewCommit → Bytes → ℕ
commit_len c msg =
    (length tree_prefix
      + 41
      + c.nparents * (length parent_prefix + 41)
      + length (author_text c)
      + length (committer_text c)
      + 2
      + length msg)
    % 2 ^ 64

-- The loop over the parents.
abbrev pub parent_steps : List Bytes → List Step
parent_steps [] = []
parent_steps (id ∷ ids) =
    let parent_str = id_line parent_prefix id in
    update parent_str ∷ fwrite parent_str ∷ parent_steps ids

-- What is hashed and written, in its order.
abbrev pub commit_steps : NewCommit → List Step
commit_steps c =
    let msg = trim c.logmsg in
    let header = header_text commit_label (commit_len c msg) ++ (0 ∷ []) in
    let tree_str = id_line tree_prefix c.tree_id in
    update header
    ∷ fwrite header
    ∷ update tree_str
    ∷ fwrite tree_str
    ∷ (parent_steps c.parent_ids
        ++ (update (author_text c)
            ∷ fwrite (author_text c)
            ∷ update (committer_text c)
            ∷ fwrite (committer_text c)
            ∷ update (0x0a ∷ [])
            ∷ fwrite (0x0a ∷ [])
            ∷ update msg
            ∷ fwrite msg
            ∷ update (0x0a ∷ [])
            ∷ fwrite (0x0a ∷ [])
            ∷ []))

-- Memory and files are taken to be there.
pub object_commit_create : Sha1 → NewCommit → Bytes × Bytes
object_commit_create sha c = written sha (commit_steps c)
