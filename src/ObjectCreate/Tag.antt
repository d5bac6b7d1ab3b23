-- ===== src/ObjectCreate/Tag.antt =====
-- got_object_tag_create of lib/object_create.c.
pub mod RoundTrip
use gameoftrees.Base.{
  ℕ, ◌+◌, ◌%◌, ◌^◌, List, [], ◌∷◌, ◌++◌, Bytes, Option, none, some, ◌==◌, if◌then◌else◌, length,
}
use gameoftrees.Base.Int.{ℤ}
use gameoftrees.Error.{obj_type, Result, ok, err, ◌>>=◌}
use gameoftrees.Digest.{skip_spaces}
use gameoftrees.FileIndex.Codec.{Sha1}
use gameoftrees.ObjectParse.Header.{
  commit_label, tree_label, blob_label, tag_label, type_commit, type_tree, type_blob, type_tag,
}
use gameoftrees.ObjectParse.Tag.{object_prefix, type_prefix, tag_prefix, tagger_prefix}
use gameoftrees.ObjectCreate.{Step, update, fwrite, header_text, person_text, id_line, written}

-- What the caller passes.
pub record NewTag : Type 0 where
  pub name : Bytes
  pub object_id : Bytes
  pub tagger : Bytes
  pub tagger_time : ℤ
  pub tagmsg : Bytes

-- The switch over the type.
pub type_str : ℕ → Result Bytes
type_str kind =
    if kind == type_blob
    then ok blob_label
    else if kind == type_tree
    then ok tree_label
    else if kind == type_commit
    then ok commit_label
    else if kind == type_tag
    then ok tag_label
    else err obj_type

-- "%s%s\n"
abbrev pub line : Bytes → Bytes → Bytes
line label text = label ++ (text ++ (0x0a ∷ []))

-- What is hashed and written behind the header.
abbrev pub tag_steps : NewTag → Bytes → List Step
tag_steps t label =
    let obj_str = id_line object_prefix t.object_id in
    let tagger_str = person_text tagger_prefix t.tagger t.tagger_time in
    let msg = skip_spaces t.tagmsg in
    update obj_str
    ∷ fwrite obj_str
    ∷ update (line type_prefix label)
    ∷ fwrite (line type_prefix label)
    ∷ update (line tag_prefix t.name)
    ∷ fwrite (line tag_prefix t.name)
    ∷ update tagger_str
    ∷ fwrite tagger_str
    ∷ update (0x0a ∷ [])
    ∷ fwrite (0x0a ∷ [])
    ∷ update msg
    ∷ fwrite msg
    ∷ update (0x0a ∷ [])
    ∷ fwrite (0x0a ∷ [])
    ∷ []

abbrev pub tag_len : NewTag → Bytes → ℕ
tag_len t label =
    (length (id_line object_prefix t.object_id)
      + length (line type_prefix label)
      + length (line tag_prefix t.name)
      + length (person_text tagger_prefix t.tagger t.tagger_time)
      + 1
      + length (skip_spaces t.tagmsg)
      + 1)
    % 2 ^ 64

-- `get_type` is got_object_get_type in the repository. Memory and files are taken to be there.
pub object_tag_create : Sha1 → (Bytes → Result ℕ) → NewTag → Result (Bytes × Bytes)
object_tag_create sha get_type t = do
  kind ← get_type t.object_id
  label ← type_str kind
  let header = header_text tag_label (tag_len t label) ++ (0 ∷ [])
  ok (written sha (update header ∷ fwrite header ∷ tag_steps t label))
