-- ===== src/ObjectParse/Header/RoundTrip.antt =====
-- Headers as lib/object_create.c writes them, and what got_object_parse_header makes of them.
use gameoftrees.Base.{
  ℕ, ◌+◌, ◌-◌, ◌^◌, ◌≤◌, ◌≡◌, ◌≢◌, refl, false, [], ◌∷◌, ◌++◌, Bytes, arith, All, All-append, ltb,
  leb, length, length-append, drop-append, append_assoc,
}
use gameoftrees.Base.Decimal.{
  print_decimal, print_decimal-All, IsDigit, strtonum-print_decimal, strtonum-blank,
}
use gameoftrees.Error.{ok}
use gameoftrees.ObjectParse.Tree.RoundTrip.{strnlen-text, string_of-text}
use gameoftrees.ObjectParse.Header.{
  commit_label, tree_label, blob_label, tag_label, type_commit, type_tree, type_blob, type_tag,
  object_size, label_loop, obj_labels, parse_header,
}

-- "%s %zd", with its NUL.
abbrev pub header : Bytes → ℕ → Bytes
header label size = label ++ (b' ' ∷ print_decimal size)

digit_byte : (s : Bytes) → All IsDigit s → All (λ c. c ≢ 0) s
digit_byte [] h = tt
digit_byte (c ∷ s) h = (omega arith, digit_byte s h.1)

size_text : (size : ℕ) → All (λ c. c ≢ 0) (b' ' ∷ print_decimal size)
size_text size = (omega arith, digit_byte (print_decimal size) (print_decimal-All size))

-- A label and the bytes behind it.
object_size-header :
    (label : Bytes) (kind size : ℕ) (rest : Bytes) (hdrlen : ℕ)
    → size ≤ 2 ^ 63 - 1
    → object_size (header label size ++ (0 ∷ rest)) hdrlen kind (length label)
      ≡ ok (record { kind = kind; hdrlen = hdrlen; size = size })
unfolding object_size
object_size-header label kind size rest hdrlen h =
    let longer : leb (length (label ++ ((b' ' ∷ print_decimal size) ++ (0 ∷ rest)))) (length label)
        ≡ false =
      ground (arith, length-append {0} label ((b' ' ∷ print_decimal size) ++ (0 ∷ rest))) in
    rw
      (
        append_assoc label (b' ' ∷ print_decimal size) (0 ∷ rest),
        longer,
        drop-append label ((b' ' ∷ print_decimal size) ++ (0 ∷ rest)),
        string_of-text (b' ' ∷ print_decimal size) rest (size_text size),
        strtonum-blank (2 ^ 63 - 1) (print_decimal size),
        strtonum-print_decimal (2 ^ 63 - 1) size h,
      )
      refl

-- The labels and the types that stand beside them.
pub data IsLabel : Bytes → ℕ → Type 0 where
  commit_type : IsLabel commit_label type_commit
  tree_type : IsLabel tree_label type_tree
  blob_type : IsLabel blob_label type_blob
  tag_type : IsLabel tag_label type_tag

label_loop-header :
    (label : Bytes) (kind size : ℕ) (rest : Bytes) (hdrlen : ℕ)
    → IsLabel label kind
    → size ≤ 2 ^ 63 - 1
    → label_loop (header label size ++ (0 ∷ rest)) hdrlen obj_labels
      ≡ ok (record { kind = kind; hdrlen = hdrlen; size = size })
unfolding label_loop
label_loop-header _ _ size rest hdrlen commit_type h =
    object_size-header commit_label type_commit size rest hdrlen h
label_loop-header _ _ size rest hdrlen tree_type h =
    object_size-header tree_label type_tree size rest hdrlen h
label_loop-header _ _ size rest hdrlen blob_type h =
    object_size-header blob_label type_blob size rest hdrlen h
label_loop-header _ _ size rest hdrlen tag_type h =
    object_size-header tag_label type_tag size rest hdrlen h

pub label_text : (label : Bytes) (kind : ℕ) → IsLabel label kind → All (λ c. c ≢ 0) label
label_text _ _ commit_type =
    (omega arith, (omega arith, (omega arith, (omega arith, (omega arith, (omega arith, tt))))))
label_text _ _ tree_type = (omega arith, (omega arith, (omega arith, (omega arith, tt))))
label_text _ _ blob_type = (omega arith, (omega arith, (omega arith, (omega arith, tt))))
label_text _ _ tag_type = (omega arith, (omega arith, (omega arith, tt)))

-- got_object_parse_header of a label, a space, a size in decimal up to LONG_MAX and a NUL, whatever
-- follows the NUL, gives the label's type, the size, and the length up to and with the NUL.
pub parse_header-header :
    (label : Bytes) (kind size : ℕ) (rest : Bytes)
    → IsLabel label kind
    → size ≤ 2 ^ 63 - 1
    → parse_header (header label size ++ (0 ∷ rest))
      ≡ ok (record { kind = kind; hdrlen = length (header label size) + 1; size = size })
unfolding parse_header
parse_header-header label kind size rest l h =
    let text =
      All-append (λ c. c ≢ 0) label (b' ' ∷ print_decimal size) (label_text label kind l)
        (size_text size) in
    let inside : ltb (length (header label size ++ (0 ∷ rest))) (length (header label size) + 1)
        ≡ false =
      ground (arith, length-append {0} (header label size) (0 ∷ rest)) in
    rw (strnlen-text (header label size) rest text, inside)
      (label_loop-header label kind size rest (length (header label size) + 1) l h)
