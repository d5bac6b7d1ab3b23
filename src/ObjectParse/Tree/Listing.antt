-- ===== src/ObjectParse/Tree/Listing.antt =====
-- What got_object_parse_tree makes of the bytes of a tree, told from the tree's items alone: no
-- notion here is the code's own.
use gameoftrees.Base.{
  ℕ, ◌+◌, ◌≡◌, ◌⊎◌, inl, inr, refl, sym, ap, ◌∙◌, Bool, true, false, ◌||◌, List, [], ◌∷◌, ◌++◌,
  Bytes, All, arith, length, bytes_eq, Bool-cases, append_assoc, append-nil,
}
use mathlib.Core.List.{Perm, perm_middle}
use mathlib.Core.List.Perm
use gameoftrees.Error.{tree_dup_entry, Result, ok, err}
use gameoftrees.Path.{PathlistEntry, pathlist_insert}
use gameoftrees.Path.Order.{IsPlain}
use gameoftrees.Path.Pathlist.{
  IsPlainEntry, IsSorted, contains, pathlist_insert_lem, pathlist_insert-Perm,
}
use gameoftrees.ObjectParse.Tree.{ParsedTreeEntry, Tree, insert_entry, no_entries, parse_tree}
use gameoftrees.ObjectParse.Tree.RoundTrip.{
  TreeItem, IsItem, tree_text, parsed_item, insert_items, parse_tree-insert_items,
}

abbrev has_name : List Bytes → Bytes → Bool
has_name [] p = false
has_name (q ∷ seen) p = bytes_eq q p || has_name seen p

abbrev repeats : List Bytes → List TreeItem → Bool
repeats seen [] = false
repeats seen (e ∷ l) = has_name seen e.name || repeats (e.name ∷ seen) l

-- Whether a name is there twice.
abbrev pub has_twice : List TreeItem → Bool
has_twice l = repeats [] l

-- The entries with their names and, from `k` on, their numbers.
abbrev pub numbered : ℕ → List TreeItem → List PathlistEntry
numbered k [] = []
numbered k (e ∷ l) = record { path = e.name; payload = k } ∷ numbered (k + 1) l

abbrev pub parsed_items : List TreeItem → List ParsedTreeEntry
parsed_items [] = []
parsed_items (e ∷ l) = parsed_item e ∷ parsed_items l

abbrev pub HasPlainName : TreeItem → Type 0
HasPlainName e = IsPlain e.name

-- A tree with the list `entries`, the data `parsed`, and the number `n`.
abbrev pub tree_of : List PathlistEntry → List ParsedTreeEntry → ℕ → Tree
tree_of entries parsed n = record { entries = entries; parsed = parsed; nentries = n }

-- A run that gives the items: an error where a name is there twice; otherwise their modes and
-- identifiers in the order of the items, their number, and the strictly sorted list of their names,
-- each with its item's number.
abbrev pub IsListing : List TreeItem → Result Tree → Type 0
IsListing l run =
    ((has_twice l ≡ true) × (run ≡ err tree_dup_entry))
    ⊎ ((entries : List PathlistEntry) × (has_twice l ≡ false)
        × (run ≡ ok (tree_of entries (parsed_items l) (length l)))
        × IsSorted entries
        × Perm entries (numbered 0 l))

-- The run from a tree `t` on, with the names seen before.
abbrev IsRest : Tree → List Bytes → List TreeItem → Result Tree → Type 0
IsRest t seen l run =
    ((repeats seen l ≡ true) × (run ≡ err tree_dup_entry))
    ⊎ ((entries : List PathlistEntry) × (repeats seen l ≡ false)
        × (run ≡ ok (tree_of entries (t.parsed ++ parsed_items l) (t.nentries + length l)))
        × IsSorted entries
        × Perm entries (numbered t.nentries l ++ t.entries))

insert_again :
    (t : Tree) (name : Bytes) (pte : ParsedTreeEntry) (entries : List PathlistEntry)
    → pathlist_insert true t.entries name t.nentries ≡ ok (false, entries)
    → insert_entry t name pte ≡ err tree_dup_entry
unfolding insert_entry
insert_again t name pte entries e = rw e refl

insert_first :
    (t : Tree) (name : Bytes) (pte : ParsedTreeEntry) (entries : List PathlistEntry)
    → pathlist_insert true t.entries name t.nentries ≡ ok (true, entries)
    → insert_entry t name pte ≡ ok (tree_of entries (t.parsed ++ pte ∷ []) (t.nentries + 1))
unfolding insert_entry
insert_first t name pte entries e = rw e refl

repeats_again :
    (t : Tree) (seen : List Bytes) (e : TreeItem) (l : List TreeItem) (entries : List PathlistEntry)
    → has_name seen e.name ≡ true
    → pathlist_insert true t.entries e.name t.nentries ≡ ok (false, entries)
    → IsRest t seen (e ∷ l) (insert_items t (e ∷ l))
repeats_again t seen e l entries again ins =
    inl (rw again refl, rw (insert_again t e.name (parsed_item e) entries ins) refl)

-- The rest of a run behind the insertion of an entry.
repeats_first :
    (t : Tree) (seen : List Bytes) (e : TreeItem) (l : List TreeItem) (entries : List PathlistEntry)
    (run : Result Tree)
    → has_name seen e.name ≡ false
    → Perm entries (record { path = e.name; payload = t.nentries } ∷ t.entries)
    → IsRest
        (tree_of entries (t.parsed ++ parsed_item e ∷ []) (t.nentries + 1))
        (e.name ∷ seen)
        l
        run
    → IsRest t seen (e ∷ l) run
repeats_first t seen e l entries run first p (inl (twice, failed)) =
    inl (rw (first, twice) refl, failed)
repeats_first t seen e l entries run first p (inr (entries', once, made, sorted, q)) = inr (
  entries',
  rw (first, once) refl,
  made
      ∙ ap (λ (x : List ParsedTreeEntry). ok (tree_of entries' x (t.nentries + 1 + length l)))
          (append_assoc t.parsed (parsed_item e ∷ []) (parsed_items l))
      ∙ ap (λ (n : ℕ). ok (tree_of entries' (t.parsed ++ parsed_items (e ∷ l)) n)) (omega arith),
  sorted,
  Perm.trans q (
      Perm.trans (Perm.append_left (numbered (t.nentries + 1) l) p)
        (perm_middle (numbered (t.nentries + 1) l) t.entries)),
)

insert_items_lem :
    (l : List TreeItem) (t : Tree) (seen : List Bytes)
    → All HasPlainName l
    → All IsPlainEntry t.entries
    → IsSorted t.entries
    → ((q : Bytes) → contains t.entries q ≡ has_name seen q)
    → IsRest t seen l (insert_items t l)
insert_items_lem [] t seen h p s same = inr (
  t.entries,
  refl,
  ap (λ (x : List ParsedTreeEntry). ok (tree_of t.entries x t.nentries)) (sym (append-nil t.parsed))
      ∙ ap (λ (n : ℕ). ok (tree_of t.entries (t.parsed ++ []) n)) (omega arith),
  s,
  Perm.refl _,
)
insert_items_lem (e ∷ l) t seen h p s same =
    elim (pathlist_insert_lem true t.entries e.name t.nentries h.0 p s) [
      | inl (refused, failed) ↦ absurd cc
      | inr (entries, allowed, ins, sorted, plain, holds) ↦
          elim (Bool-cases (contains t.entries e.name)) [
            | inl again ↦
                repeats_again t seen e l entries (sym (same e.name) ∙ again) (rw again at ins)
            | inr first ↦
                let ins' = rw first at ins in
                let t' = tree_of entries (t.parsed ++ parsed_item e ∷ []) (t.nentries + 1) in
                repeats_first t seen e l entries _ (sym (same e.name) ∙ first)
                  (pathlist_insert-Perm t.entries entries e.name t.nentries ins')
                  (rw (insert_first t e.name (parsed_item e) entries ins') (
                    insert_items_lem l t' (e.name ∷ seen) h.1 plain sorted
                      (λ q. holds q ∙ ap (λ (b : Bool). bytes_eq e.name q || b) (same q))))
          ]
    ]

-- got_object_parse_tree of the bytes of a tree whose entries have an octal mode below 2 ^ 32, a
-- plain name (no NUL, no slash at an end, no two slashes in a row) and an identifier of 20 bytes:
-- where a name is there twice, it fails with GOT_ERR_TREE_DUP_ENTRY; otherwise it gives each
-- entry's mode and identifier, in order, their number, and the strictly sorted list of exactly the
-- names, each with the data of its entry.
pub parse_tree-tree_text :
    (l : List TreeItem) → All IsItem l → All HasPlainName l → IsListing l (parse_tree (tree_text l))
parse_tree-tree_text l h p =
    let count : 0 + length l ≡ length l = omega arith in
    rw (parse_tree-insert_items l h) (
      rw (append-nil (numbered 0 l), count) at
        (insert_items_lem l no_entries [] p tt tt (λ q. refl)))
