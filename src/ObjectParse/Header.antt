-- ===== src/ObjectParse/Header.antt =====
-- got_object_parse_header of lib/object_parse.c.
pub mod RoundTrip
pub mod Bounds
mod Tests
use gameoftrees.Base.{
  ℕ, ◌+◌, ◌-◌, ◌^◌, Bool, List, [], ◌∷◌, Bytes, Option, none, some, ltb, leb, if◌then◌else◌, length,
  drop,
}
use gameoftrees.Base.Decimal.{strtonum}
use gameoftrees.Error.{bad_obj_hdr, Result, ok, err, ◌>>=◌}
use gameoftrees.ObjectParse.Tree.{strnlen, string_of}
use gameoftrees.ObjectParse.Fields.{starts_with}

-- GOT_OBJ_TYPE_COMMIT and its like.
abbrev pub type_commit : ℕ
type_commit = 1

abbrev pub type_tree : ℕ
type_tree = 2

abbrev pub type_blob : ℕ
type_blob = 3

abbrev pub type_tag : ℕ
type_tag = 4

abbrev pub commit_label : Bytes
commit_label = b'c' ∷ b'o' ∷ b'm' ∷ b'm' ∷ b'i' ∷ b't' ∷ []

abbrev pub tree_label : Bytes
tree_label = b't' ∷ b'r' ∷ b'e' ∷ b'e' ∷ []

abbrev pub blob_label : Bytes
blob_label = b'b' ∷ b'l' ∷ b'o' ∷ b'b' ∷ []

abbrev pub tag_label : Bytes
tag_label = b't' ∷ b'a' ∷ b'g' ∷ []

-- The two arrays, entry by entry.
abbrev pub obj_labels : List (Bytes × ℕ)
obj_labels =
    (commit_label, type_commit)
    ∷ (tree_label, type_tree)
    ∷ (blob_label, type_blob)
    ∷ (tag_label, type_tag)
    ∷ []

pub record Object : Type 0 where
  pub kind : ℕ
  pub hdrlen : ℕ
  pub size : ℕ

pub object_size : Bytes → ℕ → ℕ → ℕ → Result Object
object_size buf hdrlen kind label_len =
    if leb (length buf) label_len
    then err bad_obj_hdr
    else elim (strtonum (2 ^ 63 - 1) (string_of (drop label_len buf))) [
      | none ↦ err bad_obj_hdr
      | some size ↦ ok (record { kind = kind; hdrlen = hdrlen; size = size })
    ]

-- The loop over the labels, and the test behind it.
pub label_loop : Bytes → ℕ → List (Bytes × ℕ) → Result Object
label_loop buf hdrlen [] = err bad_obj_hdr
label_loop buf hdrlen ((label, kind) ∷ labels) =
    let next = label_loop buf hdrlen labels in
    starts_with label buf >>= λ found.
    if found then object_size buf hdrlen kind (length label) else next

pub parse_header : Bytes → Result Object
parse_header buf =
    let hdrlen = strnlen buf + 1 in
    if ltb (length buf) hdrlen then err bad_obj_hdr else label_loop buf hdrlen obj_labels
