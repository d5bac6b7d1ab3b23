-- ===== src/ObjectCreate/Tree/RoundTrip.antt =====
-- A new tree, read back by libexec/got-read-tree.
use gameoftrees.Base.{
  ℕ, Option, none, some, ◌+◌, ◌%◌, ◌^◌, ◌<◌, ◌≡◌, refl, ◌⊎◌, inl, inr, ap, ◌∙◌, List, [], ◌∷◌, ◌++◌,
  Bytes, All, arith, Ordering, length, length-append, append_assoc,
}
use gameoftrees.Error.{bad_filetype, Result, ok, err}
use gameoftrees.FileIndex.Codec.{Sha1}
use gameoftrees.ObjectParse.Tree.{parse_tree}
use gameoftrees.ObjectParse.Tree.RoundTrip.{TreeItem, IsItem, tree_text, octal_text}
use gameoftrees.ObjectParse.Tree.Listing.{HasPlainName, IsListing, parse_tree-tree_text}
use gameoftrees.Path.Order.{IsPlain, IsPlain-text}
use gameoftrees.ObjectParse.Header.{tree_label, type_tree}
use gameoftrees.ObjectParse.Header.RoundTrip.{tree_type}
use gameoftrees.ObjectParse.Read.{read_tree_object}
use gameoftrees.ObjectParse.Read.Whole.{read_tree_object-header}
use gameoftrees.ObjectCreate.{Step, update, fwrite, header_text, written}
use gameoftrees.ObjectCreate.Fields.{header_text-header}
use gameoftrees.ObjectCreate.Written.{filed, written-file}
use gameoftrees.ObjectCreate.Tree.{
  TreeEntry, git_mode, octal_digits, te_mode2str, git_order, entries_len, tree_steps,
  object_tree_create,
}
use gameoftrees.ObjectCreate.Tree.Modes.{
  IsGitMode, git_digits, git_mode-git_digits, mode_text-IsGitMode, digits_lem, mode_small,
}

abbrev item_of : TreeEntry → List ℕ → TreeItem
item_of te digits = record { digits = digits; name = te.name; id = te.id }

abbrev more_items : Option (List ℕ) → TreeEntry → Option (List TreeItem) → Option (List TreeItem)
more_items (some digits) te (some items) = some (item_of te digits ∷ items)
more_items _ te _ = none

-- The entries of a tree with their modes as Git has them; `none` where one has a mode that Git has
-- not.
abbrev pub tree_items : List TreeEntry → Option (List TreeItem)
tree_items [] = some []
tree_items (te ∷ entries) = more_items (git_digits te.mode) te (tree_items entries)

pub record IsEntry (te : TreeEntry) : Type 0 where
  pub name : IsPlain te.name
  pub id : length te.id ≡ 20

item_of-IsItem :
    (te : TreeEntry) (mode : ℕ)
    → IsEntry te
    → IsGitMode mode
    → IsItem (item_of te (octal_digits mode))
item_of-IsItem te mode h m =
    let (some_digits, octal_digits', value) = digits_lem mode m in
    record {
      some_digits = some_digits;
      octal_digits = octal_digits';
      small = rw value (mode_small mode m);
      name_text = IsPlain-text te.name h.name;
      whole_id = h.id;
    }

mode_lem :
    (te : TreeEntry) (mode : ℕ)
    → git_mode te ≡ ok mode
    → IsGitMode mode
    → te_mode2str 8 te ≡ ok (octal_text (octal_digits mode) ++ (b' ' ∷ []))
unfolding te_mode2str
mode_lem te mode e m = rw e (mode_text-IsGitMode mode m)

-- The entries are written: their items, the steps, and the length from any length before.
abbrev AreWritten : List TreeEntry → Type 0
AreWritten l =
    (items : List TreeItem) × (steps : List Step) × (tree_items l ≡ some items)
    × (tree_steps l ≡ ok steps)
    × (filed steps ≡ tree_text items)
    × All IsItem items
    × All HasPlainName items
    × ((n : ℕ) → n < 2 ^ 64 → entries_len n l ≡ ok ((n + length (tree_text items)) % 2 ^ 64))

-- An entry has no mode.
abbrev AreRefused : List TreeEntry → Type 0
AreRefused l = (tree_items l ≡ none) × ((n : ℕ) → entries_len n l ≡ err bad_filetype)

refused_first :
    (te : TreeEntry) (l : List TreeEntry)
    → git_mode te ≡ err bad_filetype
    → git_digits te.mode ≡ none
    → AreRefused (te ∷ l)
unfolding entries_len te_mode2str
refused_first te l g d = (rw d refl, λ n. rw g refl)

refused_later :
    (te : TreeEntry) (l : List TreeEntry) (mode : ℕ)
    → git_mode te ≡ ok mode
    → git_digits te.mode ≡ some (octal_digits mode)
    → IsGitMode mode
    → AreRefused l
    → AreRefused (te ∷ l)
unfolding entries_len
refused_later te l mode g d m (i, n) = (rw (d, i) refl, λ k. rw (mode_lem te mode g m) (n _))

entry_text :
    (digits name id rest : Bytes)
    → (digits ++ (b' ' ∷ [])) ++ ((name ++ (0 ∷ [])) ++ (id ++ rest))
      ≡ (digits ++ (b' ' ∷ name)) ++ (0 ∷ (id ++ rest))
entry_text digits name id rest = simp append_assoc

len_lem :
    (k : ℕ) (digits name id rest : Bytes)
    → length id ≡ 20
    → ((k + (length (digits ++ (b' ' ∷ [])) + length name + 1 + 20)) % 2 ^ 64 + length rest)
        % 2 ^ 64
      ≡ (k + length ((digits ++ (b' ' ∷ name)) ++ (0 ∷ (id ++ rest)))) % 2 ^ 64
len_lem k digits name id rest h = omega (
  arith,
  length-append {0} digits (b' ' ∷ []),
  length-append {0} digits (b' ' ∷ name),
  length-append {0} (digits ++ (b' ' ∷ name)) (0 ∷ (id ++ rest)),
  length-append {0} id rest,
)

written_more :
    (te : TreeEntry) (l : List TreeEntry) (mode : ℕ)
    → git_mode te ≡ ok mode
    → git_digits te.mode ≡ some (octal_digits mode)
    → IsGitMode mode
    → IsEntry te
    → AreWritten l
    → AreWritten (te ∷ l)
unfolding entries_len tree_steps
written_more te l mode g d m h (items, steps, i, c, t, all, plain, n) =
    let item = item_of te (octal_digits mode) in
    let modebuf = octal_text (octal_digits mode) ++ (b' ' ∷ []) in
    let name = te.name ++ (0 ∷ []) in
    let more =
      fwrite modebuf
      ∷ update modebuf
      ∷ fwrite name
      ∷ update name
      ∷ fwrite te.id
      ∷ update te.id
      ∷ steps in
    let text : filed more ≡ tree_text (item ∷ items) =
      ap (λ (r : Bytes). modebuf ++ ((te.name ++ (0 ∷ [])) ++ (te.id ++ r))) t
      ∙ entry_text (octal_text (octal_digits mode)) te.name te.id (tree_text items) in
    (
      item ∷ items,
      more,
      rw (d, i) refl,
      rw (mode_lem te mode g m, c) refl,
      text,
      (item_of-IsItem te mode h m, all),
      (h.name, plain),
      λ k s. rw (mode_lem te mode g m) (
          n _ (omega arith)
          ∙ ap ok
              (len_lem k (octal_text (octal_digits mode)) te.name te.id (tree_text items) h.id)),
    )

entries_lem : (l : List TreeEntry) → All IsEntry l → AreWritten l ⊎ AreRefused l
unfolding entries_len tree_steps
entries_lem [] h = inl (
  [],
  [],
  refl,
  refl,
  refl,
  tt,
  tt,
  λ n s. ap ok (let same : n ≡ (n + 0) % 2 ^ 64 = omega arith in same),
)
entries_lem (te ∷ l) h = elim (git_mode-git_digits te) [
  | inl (g, d) ↦ inr (refused_first te l g d)
  | inr (mode, g, m, d) ↦ elim (entries_lem l h.1) [
    | inl w ↦ inl (written_more te l mode g d m h.0 w)
    | inr r ↦ inr (refused_later te l mode g d m r)
  ]
]

-- A new tree that is refused, or stored as a file that lists the items.
abbrev pub IsCreated : Option (List TreeItem) → Result (Bytes × Bytes) → Type 0
IsCreated listed run =
    ((listed ≡ none) × (run ≡ err bad_filetype))
    ⊎ ((items : List TreeItem) × (id : Bytes) × (file : Bytes) × (listed ≡ some items)
        × (run ≡ ok (id, file))
        × IsListing items (read_tree_object file))

written_lem :
    (sha : Sha1) (mergesort : (TreeEntry → TreeEntry → Ordering) → List TreeEntry → List TreeEntry)
    (entries : List TreeEntry)
    → AreWritten (mergesort git_order entries)
    → ((items : List TreeItem)
        → tree_items (mergesort git_order entries) ≡ some items
        → length (tree_text items) < 2 ^ 63)
    → IsCreated
        (tree_items (mergesort git_order entries))
        (object_tree_create sha mergesort entries)
unfolding object_tree_create
written_lem sha mergesort entries (items, steps, i, c, t, all, plain, n) small =
    let s = small items i in
    let len = (0 + length (tree_text items)) % 2 ^ 64 in
    let head = header_text tree_label len in
    let run = update (head ++ (0 ∷ [])) ∷ fwrite (head ++ (0 ∷ [])) ∷ steps in
    let read : read_tree_object (written sha run).1 ≡ parse_tree (tree_text items) =
      ap read_tree_object (
        written-file sha run
        ∙ append_assoc head (0 ∷ []) (filed steps)
        ∙ ap (λ (b : Bytes). head ++ (0 ∷ b)) t
        ∙ ap (λ (b : Bytes). b ++ (0 ∷ tree_text items))
            (header_text-header tree_label len (length (tree_text items)) (omega arith) s))
      ∙ read_tree_object-header tree_label type_tree (tree_text items) tree_type s in
    inr (
      items,
      (written sha run).0,
      (written sha run).1,
      i,
      rw (n 0 (omega arith), c) refl,
      rw read (parse_tree-tree_text items all plain),
    )

-- A new tree, in the order that mergesort(3) has put the entries: where an entry's mode is of no
-- type that Git has, it fails with GOT_ERR_BAD_FILETYPE; otherwise it gives a file from which
-- got-read-tree reads the entries, with Git's modes (100644 or 100755 by the bits to run a file,
-- 160000, 120000, 40000), their identifiers, their number and the strictly sorted list of their
-- names, or, where a name is there twice, fails with GOT_ERR_TREE_DUP_ENTRY. The names are plain
-- (no NUL, no slash at an end, no two slashes in a row), the identifiers have 20 bytes, and the
-- file, if there is one, is below 2 ^ 63 bytes.
pub read_tree_object-object_tree_create :
    (sha : Sha1) (mergesort : (TreeEntry → TreeEntry → Ordering) → List TreeEntry → List TreeEntry)
    (entries : List TreeEntry)
    → All IsEntry (mergesort git_order entries)
    → ((items : List TreeItem)
        → tree_items (mergesort git_order entries) ≡ some items
        → length (tree_text items) < 2 ^ 63)
    → IsCreated
        (tree_items (mergesort git_order entries))
        (object_tree_create sha mergesort entries)
unfolding object_tree_create
read_tree_object-object_tree_create sha mergesort entries h small =
    elim (entries_lem (mergesort git_order entries) h) [
      | inl w ↦ written_lem sha mergesort entries w small
      | inr (i, n) ↦ inl (i, rw (n 0) refl)
    ]
