-- ===== src/ObjectParse/Tag.antt =====
-- got_object_parse_tag of lib/object_parse.c.
pub mod Rounds
use gameoftrees.Base.{
  ℕ, ◌+◌, ◌-◌, Bool, List, [], ◌∷◌, Bytes, Option, none, some, ◌==◌, if◌then◌else◌, length, drop,
}
use gameoftrees.Error.{bad_obj_data, Result, ok, err, ◌>>=◌}
use gameoftrees.ObjectParse.Tree.{string_of}
use gameoftrees.ObjectParse.Header.{obj_labels}
use gameoftrees.ObjectParse.Fields.{starts_with, take_id, take_line, Signature, optional_signature}

abbrev pub object_prefix : Bytes
object_prefix = b'o' ∷ b'b' ∷ b'j' ∷ b'e' ∷ b'c' ∷ b't' ∷ b' ' ∷ []

abbrev pub type_prefix : Bytes
type_prefix = b't' ∷ b'y' ∷ b'p' ∷ b'e' ∷ b' ' ∷ []

abbrev pub tag_prefix : Bytes
tag_prefix = b't' ∷ b'a' ∷ b'g' ∷ b' ' ∷ []

abbrev pub tagger_prefix : Bytes
tagger_prefix = b't' ∷ b'a' ∷ b'g' ∷ b'g' ∷ b'e' ∷ b'r' ∷ b' ' ∷ []

-- The tagger is an empty name where the tag has no line for it.
pub record Tag : Type 0 where
  pub id : Bytes
  pub obj_type : ℕ
  pub name : Bytes
  pub tagger : Option Signature
  pub tagmsg : Bytes

-- The chain of tests of the type, and what is behind the label.
pub type_loop : Bytes → List (Bytes × ℕ) → Result (ℕ × Bytes)
type_loop s [] = err bad_obj_data
type_loop s ((label, kind) ∷ labels) =
    let next = type_loop s labels in
    starts_with label s >>= λ found. if found then ok (kind, drop (length label) s) else next

-- `remain <= 0 || *s != '\n'`, and the test of what is left behind the newline.
abbrev pub newline : Bytes → Result Bytes
newline [] = err bad_obj_data
newline (c ∷ []) = err bad_obj_data
newline (c ∷ d ∷ s) = if c == 0x0a then ok (d ∷ s) else err bad_obj_data

-- `remain <= 0`
abbrev pub some_left : Bytes → Result Bytes
some_left [] = err bad_obj_data
some_left (c ∷ s) = ok (c ∷ s)

-- Behind a label that has to be there.
abbrev pub expect : Bytes → Bytes → Result Bytes
expect label s =
    starts_with label s >>= λ found. if found then ok (drop (length label) s) else err bad_obj_data

pub tag_fields : Bytes → Result Tag
tag_fields buf = do
  s0 ← expect object_prefix buf
  (id, s1) ← take_id s0
  s2 ← some_left s1
  s3 ← expect type_prefix s2
  s4 ← some_left s3
  (obj_type, s5) ← type_loop s4 obj_labels
  s6 ← newline s5
  s7 ← expect tag_prefix s6
  (name, s8) ← take_line s7
  s9 ← some_left s8
  (tagger, s10) ← optional_signature tagger_prefix s9
  ok record { id = id; obj_type = obj_type; name = name; tagger = tagger; tagmsg = string_of s10 }

pub parse_tag : Bytes → Result Tag
parse_tag buf = some_left buf >>= tag_fields
