-- ===== src/ObjectParse/Tag/Rounds.antt =====
-- got_object_parse_tag, line by line.
use gameoftrees.Base.{ℕ, ◌≡◌, refl, ◌∷◌, ◌++◌, Bytes, Option}
use gameoftrees.Error.{ok}
use gameoftrees.ObjectParse.Tree.{string_of}
use gameoftrees.ObjectParse.Header.{obj_labels}
use gameoftrees.ObjectParse.Header.RoundTrip.{IsLabel, commit_type, tree_type, blob_type, tag_type}
use gameoftrees.ObjectParse.Fields.{take_id, take_line, Signature, optional_signature}
use gameoftrees.ObjectParse.Tag.{
  object_prefix, type_prefix, tag_prefix, tagger_prefix, type_loop, some_left, tag_fields,
  parse_tag,
}

type_loop-label :
    (label : Bytes) (kind : ℕ) (s : Bytes)
    → IsLabel label kind
    → type_loop (label ++ (0x0a ∷ s)) obj_labels ≡ ok (kind, 0x0a ∷ s)
unfolding type_loop
type_loop-label _ _ s commit_type = refl
type_loop-label _ _ s tree_type = refl
type_loop-label _ _ s blob_type = refl
type_loop-label _ _ s tag_type = refl

some_left_label :
    (label : Bytes) (kind : ℕ) (s : Bytes)
    → IsLabel label kind
    → some_left (label ++ s) ≡ ok (label ++ s)
some_left_label _ _ s commit_type = refl
some_left_label _ _ s tree_type = refl
some_left_label _ _ s blob_type = refl
some_left_label _ _ s tag_type = refl

-- The parts of a tag, each behind the one before.
pub parse_tag_parts :
    (s id label : Bytes) (kind : ℕ) (s6 name : Bytes) (c : ℕ) (s9 s10 : Bytes)
    (tagger : Option Signature)
    → take_id s ≡ ok (id, type_prefix ++ (label ++ (0x0a ∷ (tag_prefix ++ s6))))
    → IsLabel label kind
    → take_line s6 ≡ ok (name, c ∷ s9)
    → optional_signature tagger_prefix (c ∷ s9) ≡ ok (tagger, s10)
    → parse_tag (object_prefix ++ s)
      ≡ ok (record {
        id = id;
        obj_type = kind;
        name = name;
        tagger = tagger;
        tagmsg = string_of s10;
      })
unfolding parse_tag tag_fields
parse_tag_parts s id label kind s6 name c s9 s10 tagger e1 l e2 e3 =
    rw
      (
        e1,
        some_left_label label kind (0x0a ∷ (tag_prefix ++ s6)) l,
        type_loop-label label kind (tag_prefix ++ s6) l,
        e2,
        e3,
      )
      refl
