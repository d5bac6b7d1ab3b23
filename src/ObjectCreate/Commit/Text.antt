-- ===== src/ObjectCreate/Commit/Text.antt =====
-- The file of a new commit: its bytes, its header's size and its identifier.
use gameoftrees.Base.{
  ◌*◌, ◌^◌, ◌<◌, ◌≡◌, refl, ap, sym, ◌∙◌, List, [], ◌∷◌, ◌++◌, Bytes, All, arith, length,
  length-append, append_assoc,
}
use gameoftrees.FileIndex.Codec.{Sha1}
use gameoftrees.ObjectParse.Header.{commit_label}
use gameoftrees.ObjectParse.Commit.{tree_prefix, parent_prefix}
use gameoftrees.ObjectParse.Fields.RoundTrip.{IsId}
use gameoftrees.ObjectCreate.{header_text, id_line, trim}
use gameoftrees.ObjectCreate.Fields.{message_text, length-id_line}
use gameoftrees.ObjectCreate.Written.{
  filed, hashed, filed-append, hashed-append, written-file, written-digest,
}
use gameoftrees.ObjectCreate.Commit.{
  NewCommit, author_text, committer_text, commit_len, parent_steps, commit_steps,
  object_commit_create,
}

abbrev pub parents_text : List Bytes → Bytes
parents_text ids = filed (parent_steps ids)

-- What follows the header and its NUL.
abbrev pub commit_body : NewCommit → Bytes
commit_body c =
    id_line tree_prefix c.tree_id
    ++ (parents_text c.parent_ids
        ++ (author_text c ++ (committer_text c ++ message_text (trim c.logmsg))))

length-parents_text :
    (ids : List Bytes) → All IsId ids → length (parents_text ids) ≡ length ids * 48
length-parents_text [] h = omega arith
length-parents_text (id ∷ ids) h = omega (
  arith,
  length-append {0} (id_line parent_prefix id) (parents_text ids),
  length-id_line parent_prefix id h.0,
  length-parents_text ids h.1,
)

pub commit_len-commit_body :
    (c : NewCommit)
    → IsId c.tree_id
    → All IsId c.parent_ids
    → c.nparents ≡ length c.parent_ids
    → length (commit_body c) < 2 ^ 63
    → commit_len c (trim c.logmsg) ≡ length (commit_body c)
commit_len-commit_body c t p n small = omega (
  arith,
  length-append {0} (id_line tree_prefix c.tree_id) (
      parents_text c.parent_ids
      ++ (author_text c ++ (committer_text c ++ message_text (trim c.logmsg)))),
  length-append {0} (parents_text c.parent_ids)
      (author_text c ++ (committer_text c ++ message_text (trim c.logmsg))),
  length-append {0} (author_text c) (committer_text c ++ message_text (trim c.logmsg)),
  length-append {0} (committer_text c) (message_text (trim c.logmsg)),
  length-append {0} (trim c.logmsg) (0x0a ∷ []),
  length-id_line tree_prefix c.tree_id t,
  length-parents_text c.parent_ids p,
)

pub object_commit_create-file :
    (sha : Sha1) (c : NewCommit)
    → (object_commit_create sha c).1
      ≡ header_text commit_label (commit_len c (trim c.logmsg)) ++ (0 ∷ commit_body c)
unfolding object_commit_create
object_commit_create-file sha c =
    let msg = trim c.logmsg in
    let head = header_text commit_label (commit_len c msg) in
    written-file sha (commit_steps c)
    ∙ ap (λ (b : Bytes). (head ++ (0 ∷ [])) ++ (id_line tree_prefix c.tree_id ++ b))
        (filed-append (parent_steps c.parent_ids) _)
    ∙ append_assoc head (0 ∷ []) (commit_body c)

parent_steps-hashed : (ids : List Bytes) → hashed (parent_steps ids) ≡ filed (parent_steps ids)
parent_steps-hashed [] = refl
parent_steps-hashed (id ∷ ids) = ap (◌++◌ (id_line parent_prefix id)) (parent_steps-hashed ids)

commit_steps-hashed : (c : NewCommit) → hashed (commit_steps c) ≡ filed (commit_steps c)
commit_steps-hashed c =
    let header = header_text commit_label (commit_len c (trim c.logmsg)) ++ (0 ∷ []) in
    let last = author_text c ++ (committer_text c ++ message_text (trim c.logmsg)) in
    ap (λ (b : Bytes). header ++ (id_line tree_prefix c.tree_id ++ b))
      (hashed-append (parent_steps c.parent_ids) _
        ∙ ap (λ (b : Bytes). b ++ last) (parent_steps-hashed c.parent_ids)
        ∙ sym (filed-append (parent_steps c.parent_ids) _))

-- The identifier of a new commit is the digest of the whole file that is stored under it.
pub object_commit_create-digest :
    (sha : Sha1) (c : NewCommit)
    → (object_commit_create sha c).0
      ≡ sha.final (sha.update sha.init (object_commit_create sha c).1)
unfolding object_commit_create
object_commit_create-digest sha c = written-digest sha _ _ (commit_steps-hashed c)
