-- ===== src/ObjectParse/Read/Whole.antt =====
-- Objects whose header tells the number of the bytes that follow it.
use gameoftrees.Base.{
  ℕ, ◌+◌, ◌^◌, ◌<◌, ◌≡◌, refl, false, ◌∷◌, ◌++◌, Bytes, arith, ltb, length, length-append,
  drop-append_cons,
}
use gameoftrees.ObjectParse.Tree.{parse_tree}
use gameoftrees.ObjectParse.Commit.{parse_commit}
use gameoftrees.ObjectParse.Tag.{parse_tag}
use gameoftrees.ObjectParse.Header.{commit_label, type_commit}
use gameoftrees.ObjectParse.Header.RoundTrip.{header, IsLabel, commit_type, parse_header-header}
use gameoftrees.ObjectParse.Read.{read_commit_object, read_tree_object, read_tag_object}

whole_lem :
    (label body : Bytes)
    → ltb
        (length (header label (length body) ++ (0 ∷ body)))
        (length (header label (length body)) + 1 + length body)
      ≡ false
whole_lem label body = ground (arith, length-append {0} (header label (length body)) (0 ∷ body))

pub read_commit_object-header :
    (body : Bytes)
    → length body < 2 ^ 63
    → read_commit_object (header commit_label (length body) ++ (0 ∷ body)) ≡ parse_commit body
unfolding read_commit_object
read_commit_object-header body h =
    let head = header commit_label (length body) in
    rw
      (
        parse_header-header commit_label type_commit (length body) body commit_type (omega arith),
        whole_lem commit_label body,
        drop-append_cons head 0 body (length head + 1) refl,
      )
      refl

pub read_tree_object-header :
    (label : Bytes) (kind : ℕ) (body : Bytes)
    → IsLabel label kind
    → length body < 2 ^ 63
    → read_tree_object (header label (length body) ++ (0 ∷ body)) ≡ parse_tree body
unfolding read_tree_object
read_tree_object-header label kind body l h =
    let head = header label (length body) in
    rw
      (
        parse_header-header label kind (length body) body l (omega arith),
        whole_lem label body,
        drop-append_cons head 0 body (length head + 1) refl,
      )
      refl

pub read_tag_object-header :
    (label : Bytes) (kind : ℕ) (body : Bytes)
    → IsLabel label kind
    → length body < 2 ^ 63
    → read_tag_object (header label (length body) ++ (0 ∷ body)) ≡ parse_tag body
unfolding read_tag_object
read_tag_object-header label kind body l h =
    let head = header label (length body) in
    rw
      (
        parse_header-header label kind (length body) body l (omega arith),
        whole_lem label body,
        drop-append_cons head 0 body (length head + 1) refl,
      )
      refl
