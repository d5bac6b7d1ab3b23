-- ===== src/ObjectParse/Header/Bounds.antt =====
-- got_object_parse_header on any buffer.
use gameoftrees.Base.{
  ℕ, suc, ◌+◌, ◌-◌, ◌^◌, ◌≤◌, ◌<◌, ◌≡◌, ◌≢◌, inl, inr, true, false, List, [], ◌∷◌, Bytes, All,
  arith, ltb, leb, ◌==◌, if◌then◌else◌, length, drop, Bool-cases, Option-cases,
}
use gameoftrees.Base.Decimal.{strtonum, strtonum_lem}
use gameoftrees.Error.{Ensures, Ensures-bind, Ensures-if}
use gameoftrees.ObjectParse.Tree.{string_of, strnlen}
use gameoftrees.ObjectParse.Fields.{starts_with}
use gameoftrees.ObjectParse.Header.RoundTrip.{
  commit_type, tree_type, blob_type, tag_type, label_text,
}
use gameoftrees.ObjectParse.Header.{
  Object, commit_label, tree_label, blob_label, tag_label, object_size, label_loop, obj_labels,
  parse_header,
}

-- What a caller relies on.
pub record IsHeader (buf : Bytes) (o : Object) : Type 0 where
  pub kind : (1 ≤ o.kind) × (o.kind ≤ 4)
  pub inside : (1 ≤ o.hdrlen) × (o.hdrlen ≤ length buf)
  pub size : o.size ≤ 2 ^ 63 - 1

nonzero : (c l : ℕ) → (c == l) ≡ true → l ≢ 0 → (c == 0) ≡ false
nonzero c l e h = ground arith

-- A NUL in the buffer ends the comparison.
starts_with-Ensures :
    (label s : Bytes)
    → All (λ c. c ≢ 0) label
    → strnlen s < length s
    → Ensures (λ _. Unit {0}) (starts_with label s)
starts_with-Ensures [] s h k = tt
starts_with-Ensures (l ∷ label) [] h k = absurd (omega arith)
starts_with-Ensures (l ∷ label) (c ∷ s) h k = elim (Bool-cases (c == l)) [
  | inr e ↦ rw e tt
  | inl e ↦ rw e (
      starts_with-Ensures label s h.1 (
        let other : (c == 0) ≡ false = nonzero c l e h.0 in
        let more : suc (strnlen s) < suc (length s) = rw other at k in omega (arith, more)))
]

object_size-Ensures :
    (buf : Bytes) (hdrlen kind label_len : ℕ)
    → (1 ≤ kind) × (kind ≤ 4)
    → (1 ≤ hdrlen) × (hdrlen ≤ length buf)
    → Ensures (IsHeader buf) (object_size buf hdrlen kind label_len)
unfolding object_size
object_size-Ensures buf hdrlen kind label_len h k = elim (Bool-cases (leb (length buf) label_len)) [
  | inl e ↦ rw e tt
  | inr e ↦ elim (Option-cases (strtonum (2 ^ 63 - 1) (string_of (drop label_len buf)))) [
    | inl n ↦ rw (e, n) tt
    | inr (v, n) ↦
        rw (e, n)
          (record {
            kind = h;
            inside = k;
            size = strtonum_lem (2 ^ 63 - 1) v (string_of (drop label_len buf)) n;
          })
  ]
]

label_loop-Ensures :
    (buf : Bytes) (hdrlen : ℕ) (labels : List (Bytes × ℕ))
    → All (λ l. All (λ c. c ≢ 0) l.0 × (1 ≤ l.1) × (l.1 ≤ 4)) labels
    → strnlen buf < length buf
    → (1 ≤ hdrlen) × (hdrlen ≤ length buf)
    → Ensures (IsHeader buf) (label_loop buf hdrlen labels)
unfolding label_loop
label_loop-Ensures buf hdrlen [] h s k = tt
label_loop-Ensures buf hdrlen ((label, kind) ∷ labels) h s k =
    Ensures-bind (λ _. Unit {0}) (IsHeader buf) (starts_with label buf)
      (λ found.
        if found then object_size buf hdrlen kind (length label) else label_loop buf hdrlen labels)
      (starts_with-Ensures label buf h.0.0 s)
      (λ found u.
        Ensures-if (IsHeader buf) found (object_size buf hdrlen kind (length label))
          (label_loop buf hdrlen labels)
          (object_size-Ensures buf hdrlen kind (length label) (h.0.1, h.0.2) k)
          (label_loop-Ensures buf hdrlen labels h.1 s k))

labels_lem : All (λ l. All (λ c. c ≢ 0) l.0 × (1 ≤ l.1) × (l.1 ≤ 4)) obj_labels
labels_lem = (
  (label_text commit_label 1 commit_type, omega arith, omega arith),
  (
    (label_text tree_label 2 tree_type, omega arith, omega arith),
    (
      (label_text blob_label 3 blob_type, omega arith, omega arith),
      ((label_text tag_label 4 tag_type, omega arith, omega arith), tt),
    ),
  ),
)

-- got_object_parse_header never reads past the end of the buffer, whatever the buffer holds. Where it
-- returns an object, its type is one of the four, its header has at least one byte and lies in the
-- buffer, and its size is at most LONG_MAX.
pub parse_header-IsHeader : (buf : Bytes) → Ensures (IsHeader buf) (parse_header buf)
unfolding parse_header
parse_header-IsHeader buf = elim (Bool-cases (ltb (length buf) (strnlen buf + 1))) [
  | inl e ↦ rw e tt
  | inr e ↦
      rw e (
        label_loop-Ensures buf (strnlen buf + 1) obj_labels labels_lem (ground arith)
          (ground arith))
]
