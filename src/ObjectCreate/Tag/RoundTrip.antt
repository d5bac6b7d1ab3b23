-- ===== src/ObjectCreate/Tag/RoundTrip.antt =====
-- A new tag, read back by libexec/got-read-tag.
use gameoftrees.Base.{
  ℕ, ◌^◌, ◌<◌, ◌≡◌, ◌≢◌, refl, ap, ◌∙◌, [], ◌∷◌, ◌++◌, Bytes, some, All, arith, length,
  length-append, append_assoc,
}
use gameoftrees.Base.Int.{pos_part}
use gameoftrees.Error.{Result, ok, ◌>>=◌}
use gameoftrees.Digest.{digest_text, skip_spaces}
use gameoftrees.FileIndex.Codec.{Sha1}
use gameoftrees.ObjectParse.Header.{tag_label, type_tag}
use gameoftrees.ObjectParse.Header.RoundTrip.{IsLabel, commit_type, tree_type, blob_type, tag_type}
use gameoftrees.ObjectParse.Tag.{
  Tag, object_prefix, type_prefix, tag_prefix, tagger_prefix, parse_tag,
}
use gameoftrees.ObjectParse.Tag.Rounds.{parse_tag_parts}
use gameoftrees.ObjectParse.Fields.RoundTrip.{
  IsId, IsText, take_id-digest_text, take_line-text, in_utc,
}
use gameoftrees.ObjectParse.Read.{read_tag_object}
use gameoftrees.ObjectParse.Read.Whole.{read_tag_object-header}
use gameoftrees.ObjectCreate.{update, fwrite, header_text, person_text, id_line}
use gameoftrees.ObjectCreate.Fields.{
  IsTime, message_text, id_line-append, string_of-all, optional_signature-person_text,
  message_text-All, header_text-header,
}
use gameoftrees.ObjectCreate.Trim.{skip_spaces-All}
use gameoftrees.ObjectCreate.Written.{filed, written-file}
use gameoftrees.ObjectCreate.Tag.{NewTag, type_str, line, tag_steps, tag_len, object_tag_create}

-- What the parser can take back.
pub record IsPlainTag (t : NewTag) (label : Bytes) : Type 0 where
  pub name : IsText t.name
  pub object_id : IsId t.object_id
  pub tagger : IsText t.tagger
  pub tagger_time : IsTime t.tagger_time
  pub tagmsg : All (λ b. b ≢ 0) t.tagmsg
  pub small : length (filed (tag_steps t label)) < 2 ^ 63

type_str-label : (label : Bytes) (kind : ℕ) → IsLabel label kind → type_str kind ≡ ok label
unfolding type_str
type_str-label _ _ commit_type = refl
type_str-label _ _ tree_type = refl
type_str-label _ _ blob_type = refl
type_str-label _ _ tag_type = refl

tag_len_lem :
    (t : NewTag) (label : Bytes)
    → length (filed (tag_steps t label)) < 2 ^ 63
    → tag_len t label ≡ length (filed (tag_steps t label))
tag_len_lem t label h =
    let l7 = 0x0a ∷ [] in
    let l6 = skip_spaces t.tagmsg ++ l7 in
    let l5 = 0x0a ∷ l6 in
    let l4 = person_text tagger_prefix t.tagger t.tagger_time ++ l5 in
    let l3 = line tag_prefix t.name ++ l4 in
    let l2 = line type_prefix label ++ l3 in
    omega (
      arith,
      length-append {0} (id_line object_prefix t.object_id) l2,
      length-append {0} (line type_prefix label) l3,
      length-append {0} (line tag_prefix t.name) l4,
      length-append {0} (person_text tagger_prefix t.tagger t.tagger_time) l5,
      length-append {0} (skip_spaces t.tagmsg) l7,
    )

line-append : (label text rest : Bytes) → line label text ++ rest ≡ label ++ (text ++ (0x0a ∷ rest))
line-append label text rest = simp append_assoc

-- The tag as it is read.
abbrev with_message : NewTag → ℕ → Bytes → Tag
with_message t kind msg = record {
  id = t.object_id;
  obj_type = kind;
  name = t.name;
  tagger = some (in_utc t.tagger (pos_part t.tagger_time));
  tagmsg = msg;
}

abbrev pub tag_back : NewTag → ℕ → Tag
tag_back t kind = with_message t kind (message_text (skip_spaces t.tagmsg))

parse_tag-lines :
    (t : NewTag) (label : Bytes) (kind : ℕ)
    → IsLabel label kind
    → IsPlainTag t label
    → parse_tag (filed (tag_steps t label)) ≡ ok (tag_back t kind)
parse_tag-lines t label kind l h =
    let msg = message_text (skip_spaces t.tagmsg) in
    let s9 = person_text tagger_prefix t.tagger t.tagger_time ++ msg in
    let s6 = t.name ++ (0x0a ∷ s9) in
    let s1 = type_prefix ++ (label ++ (0x0a ∷ (tag_prefix ++ s6))) in
    let lines : filed (tag_steps t label)
        ≡ object_prefix ++ (digest_text t.object_id ++ (0x0a ∷ s1)) =
      id_line-append object_prefix t.object_id
        (line type_prefix label ++ (line tag_prefix t.name ++ s9))
      ∙ ap (λ (s : Bytes). object_prefix ++ (digest_text t.object_id ++ (0x0a ∷ s)))
          (line-append type_prefix label (line tag_prefix t.name ++ s9)
            ∙ ap (λ (s : Bytes). type_prefix ++ (label ++ (0x0a ∷ s)))
                (line-append tag_prefix t.name s9)) in
    ap parse_tag lines
    ∙ parse_tag_parts (digest_text t.object_id ++ (0x0a ∷ s1)) t.object_id label kind s6 t.name _ _
        msg (some (in_utc t.tagger (pos_part t.tagger_time)))
        (take_id-digest_text t.object_id s1 h.object_id) l (take_line-text t.name s9 h.name)
        (optional_signature-person_text tagger_prefix t.tagger t.tagger_time msg h.tagger
          h.tagger_time)
    ∙ ap (λ (m : Bytes). ok (with_message t kind m))
        (string_of-all msg (
          message_text-All (skip_spaces t.tagmsg) (skip_spaces-All (λ b. b ≢ 0) t.tagmsg h.tagmsg)))

-- Where the type of the tagged object is one of the four, a new tag is created, and its file, read by
-- got-read-tag, gives the tag back: the object with its type, the name, the tagger with the time in
-- UTC, and as the message a newline, the message without the space at its start, and a newline. The
-- identifier has 20 bytes, the names have no NUL and no newline, the time is not negative, the
-- message has no NUL, and the file is below 2 ^ 63 bytes.
pub read_tag_object-object_tag_create :
    (sha : Sha1) (get_type : Bytes → Result ℕ) (t : NewTag) (label : Bytes) (kind : ℕ)
    → get_type t.object_id ≡ ok kind
    → IsLabel label kind
    → IsPlainTag t label
    → (object_tag_create sha get_type t >>= λ (id, file). read_tag_object file)
      ≡ ok (tag_back t kind)
unfolding object_tag_create
read_tag_object-object_tag_create sha get_type t label kind e l h =
    let body = filed (tag_steps t label) in
    let head = header_text tag_label (tag_len t label) in
    rw (e, type_str-label label kind l)
      (ap read_tag_object (
          written-file sha
            (update (head ++ (0 ∷ [])) ∷ fwrite (head ++ (0 ∷ [])) ∷ tag_steps t label)
          ∙ append_assoc head (0 ∷ []) body
          ∙ ap (λ (s : Bytes). s ++ (0 ∷ body))
              (header_text-header tag_label (tag_len t label) (length body)
                (tag_len_lem t label h.small) h.small))
        ∙ read_tag_object-header tag_label type_tag body tag_type h.small
        ∙ parse_tag-lines t label kind l h)
