-- ===== src/FileIndex/Tree/Counting.antt =====
-- An index under additions and removals: its tree, its count of entries, and what a search finds.
use gameoftrees.Base.{Ordering-cases}
use gameoftrees.Base.{
  ℕ, zero, suc, ◌+◌, ◌≤◌, ◌<◌, ◌≡◌, refl, sym, ◌∙◌, false, List, [], ◌∷◌, none, some, arith, length,
  get_elem?, All, bit_or, if◌then◌else◌, inl, inr, ◌⊎◌,
}
use native.Mathlib.Decide.{dec_lt}
use gameoftrees.Error.{ok, err, no_space}
use gameoftrees.FileIndex.{Entry, f_not_flushed}
use gameoftrees.FileIndex.Tree.{
  fileindex_cmp, insert_sorted, find_sorted, IsSorted, RbTree, Index, int_max, is_removed,
  mark_removed, remove_at, entry_remove, unless_removed, add_entry, entry_add, entry_get,
}
use gameoftrees.FileIndex.Tree.Order.{
  IsProper, is_removed-mark, IsProper-mark, IsProper-not_flushed, is_removed-not_flushed, key_of,
  IsProper-key_of, All-get_elem?, remove_at-All, remove_at-IsSorted, find-remove_at,
}
use gameoftrees.FileIndex.Tree.Insert.{insert-All, insert-IsSorted, insert_present, find-insert}

-- How many entries of a tree are not flagged for removal.
abbrev pub count_live : List Entry → ℕ
count_live [] = 0
count_live (e ∷ l) = (if is_removed e then 0 else 1) + count_live l

-- The tree is sorted, its entries have plain paths, and `nentries` counts the entries that are
-- not flagged for removal.
abbrev pub IsValid : Index → Type 0
IsValid fileindex =
    IsSorted fileindex.entries
    × All IsProper fileindex.entries
    × (fileindex.nentries ≡ count_live fileindex.entries)
    × (fileindex.nentries ≤ int_max)

count_live-remove_at :
    (l : List Entry) (i : ℕ) (e : Entry)
    → get_elem? l i ≡ some e
    → is_removed e ≡ false
    → count_live (remove_at l i) + 1 ≡ count_live l
count_live-remove_at [] i e h k = cc
count_live-remove_at (x ∷ l) zero e h k = ground (arith, is_removed-mark x)
count_live-remove_at (x ∷ l) (suc i) e h k = omega (arith, count_live-remove_at l i e h k)

count_live-insert :
    (l : List Entry) (x : Entry)
    → find_sorted l x ≡ none
    → is_removed x ≡ false
    → count_live (insert_sorted l x) ≡ count_live l + 1
count_live-insert [] x h k = rw k refl
count_live-insert (e ∷ l) x h k = elim (Ordering-cases (fileindex_cmp x e)) [
  | inl o ↦ rw (o, insert_sorted, k) (omega arith)
  | inr (inl o) ↦
      let present : find_sorted (e ∷ l) x ≡ some e = rw (o, find_sorted) refl in
      absurd (let clash : some e ≡ none = sym present ∙ h in cc)
  | inr (inr o) ↦
      let later : find_sorted (e ∷ l) x ≡ find_sorted l x = rw (o, find_sorted) refl in
      rw (o, insert_sorted) (omega (arith, count_live-insert l x (sym later ∙ h) k))
]

module _ (rb : RbTree) where
  pub add_entry-room :
      (fileindex : Index) (ie : Entry) (l : List Entry)
      → fileindex.nentries < int_max
      → rb.insert fileindex.entries ie ≡ l
      → add_entry rb fileindex ie ≡ ok (record { entries = l; nentries = fileindex.nentries + 1 })
  unfolding add_entry
  add_entry-room fileindex ie l h i = rw i (ground arith)

  -- got_fileindex_entry_remove of an entry of a valid index, not flagged yet, keeps the index
  -- valid, and got_fileindex_entry_get then returns NULL for the entry's path.
  pub entry_remove_lem :
      (fileindex : Index) (i : ℕ) (ie : Entry)
      → IsValid fileindex
      → get_elem? fileindex.entries i ≡ some ie
      → is_removed ie ≡ false
      → IsValid (entry_remove fileindex i)
        × (entry_get rb (entry_remove fileindex i) ie.path (length ie.path) ≡ none)
  unfolding entry_remove entry_get
  entry_remove_lem fileindex i ie (s, p, c, m) g k =
      let l : List Entry = fileindex.entries in
      let pe : IsProper ie = All-get_elem? IsProper l i ie g p in
      let sorted : IsSorted (remove_at l i) = remove_at-IsSorted l i s in
      (
        (
          sorted,
          remove_at-All IsProper l i IsProper-mark p,
          omega (arith, count_live-remove_at l i ie g k),
          omega (arith, count_live-remove_at l i ie g k),
        ),
        rw
            (
              rb.find_law (remove_at l i) (key_of ie.path (length ie.path)) sorted,
              find-remove_at l i ie (key_of ie.path (length ie.path)) (IsProper-key_of ie pe) p s g
                  refl,
              unless_removed,
              is_removed-mark ie,
            )
            refl,
      )

  module _ (ie : Entry) where
    abbrev pub added : Entry
    added = record ie { flags = bit_or ie.flags f_not_flushed }

    entry_add_full :
        (fileindex : Index)
        → fileindex.nentries ≡ int_max
        → entry_add rb fileindex ie ≡ err no_space
    unfolding entry_add add_entry
    entry_add_full fileindex full = rw full refl

    entry_add_room :
        (fileindex : Index) (l : List Entry)
        → fileindex.nentries < int_max
        → rb.insert fileindex.entries added ≡ l
        → entry_add rb fileindex ie ≡ ok (record { entries = l; nentries = fileindex.nentries + 1 })
    unfolding entry_add
    entry_add_room fileindex l h i = add_entry-room fileindex added l h i

    -- got_fileindex_entry_add to a valid index of an entry that is not flagged for removal, with
    -- a plain path shorter than 4096 bytes that no entry of the tree has: it reports "no space"
    -- if the index holds INT_MAX entries; otherwise the index that it leaves is valid, and
    -- got_fileindex_entry_get of the path returns the entry, flagged as not flushed.
    pub entry_add_lem :
        (fileindex : Index)
        → IsValid fileindex
        → IsProper ie
        → is_removed ie ≡ false
        → find_sorted fileindex.entries added ≡ none
        → ((fileindex.nentries ≡ int_max) × (entry_add rb fileindex ie ≡ err no_space))
          ⊎ ((fileindex' : Index) × (entry_add rb fileindex ie ≡ ok fileindex')
              × IsValid fileindex'
              × (entry_get rb fileindex' ie.path (length ie.path) ≡ some added))
    unfolding entry_get
    entry_add_lem fileindex (s, p, c, m) pe k absent =
        let l : List Entry = fileindex.entries in
        let pa : IsProper added = IsProper-not_flushed ie pe in
        let live : is_removed added ≡ false = is_removed-not_flushed ie ∙ k in
        let l' : List Entry = insert_sorted l added in
        let sorted : IsSorted l' = insert-IsSorted l added pa p s in
        elim (dec_lt fileindex.nentries int_max) [
          | no h ↦
              let full : fileindex.nentries ≡ int_max = omega arith in
              inl (full, entry_add_full fileindex full)
          | yes h ↦ inr (
            record { entries = l'; nentries = fileindex.nentries + 1 },
            entry_add_room fileindex l' h (rb.insert_law l added s),
            (
              sorted,
              insert-All IsProper l added pa p,
              omega (arith, count_live-insert l added absent live),
              omega arith,
            ),
            rw
                (
                  rb.find_law l' (key_of ie.path (length ie.path)) sorted,
                  find-insert l added (key_of ie.path (length ie.path)) pa (IsProper-key_of ie pe)
                      refl p absent,
                  unless_removed,
                  live,
                )
                refl,
          )
        ]

    -- got_fileindex_entry_add, after got_fileindex_entry_remove, of an entry for the path of the
    -- removed entry, before the index is written: it succeeds and `nentries` is one more than the
    -- entries not flagged for removal, but the tree is unchanged, without the new entry, and
    -- got_fileindex_entry_get of the path returns NULL.
    pub entry_add-entry_remove :
        (fileindex : Index) (i : ℕ) (old : Entry)
        → IsValid fileindex
        → get_elem? fileindex.entries i ≡ some old
        → is_removed old ≡ false
        → IsProper ie
        → ie.path ≡ old.path
        → (fileindex' : Index) × (entry_add rb (entry_remove fileindex i) ie ≡ ok fileindex')
          × (fileindex'.entries ≡ remove_at fileindex.entries i)
          × (fileindex'.nentries ≡ count_live fileindex'.entries + 1)
          × (entry_get rb fileindex' ie.path (length ie.path) ≡ none)
    unfolding entry_remove entry_get
    entry_add-entry_remove fileindex i old (s, p, c, m) g k pe same =
        let l : List Entry = fileindex.entries in
        let l' : List Entry = remove_at l i in
        let pa : IsProper added = IsProper-not_flushed ie pe in
        let sorted : IsSorted l' = remove_at-IsSorted l i s in
        let proper : All IsProper l' = remove_at-All IsProper l i IsProper-mark p in
        let there : find_sorted l' added ≡ some (mark_removed old) =
          find-remove_at l i old added pa p s g same in
        let live : fileindex.nentries ≡ count_live l' + 1 =
          omega (arith, count_live-remove_at l i old g k) in
        let removed : Index = entry_remove fileindex i in
        let count : removed.nentries ≡ count_live l' = omega arith in
        (
          record { entries = l'; nentries = removed.nentries + 1 },
          entry_add_room removed l' (omega arith) (
              rb.insert_law l' added sorted
              ∙ insert_present l' added (mark_removed old) pa proper sorted there),
          refl,
          omega arith,
          rw
              (
                rb.find_law l' (key_of ie.path (length ie.path)) sorted,
                find-remove_at l i old (key_of ie.path (length ie.path)) (IsProper-key_of ie pe) p s
                    g same,
                unless_removed,
                is_removed-mark old,
              )
              refl,
        )
