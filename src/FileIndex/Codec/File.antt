-- ===== src/FileIndex/Codec/File.antt =====
-- The file of an index: what got_fileindex_write writes, got_fileindex_read reads back.
use gameoftrees.Base.{
  ℕ, ◌+◌, ◌-◌, ◌≡◌, ◌≤◌, refl, sym, ap, ◌∙◌, Bool, true, List, [], ◌∷◌, ◌++◌, Bytes, bytes_eq_iff,
  All, map, length, take, take-append, drop-append, arith, append_assoc, append-nil, length-append,
  Bool-cases, inl, inr,
}
use gameoftrees.Error.{Result, ok}
use gameoftrees.FileIndex.{Entry}
use gameoftrees.FileIndex.Tree.{RbTree, Index, IsSorted, is_removed, int_max}
use gameoftrees.FileIndex.Tree.Order.{IsProper}
use gameoftrees.FileIndex.Tree.Counting.{IsValid, add_entry-room}
use gameoftrees.FileIndex.Codec.{
  Sha1, be, be_onto, entry_chunks, Writer, write_entry, write_entries, flushed, header_chunks,
  fileindex_write, Reader, read_entries, header_word, read_body, read_checksum, fileindex_read,
}
use gameoftrees.FileIndex.Codec.Numbers.{length-be_onto, be_fold-be}
use gameoftrees.FileIndex.Codec.Entries.{
  IsStorable, recorded, hash, flatten, flatten-append, writer, write_chunks-flatten,
  write_chunk-fits, read_entry-chunks,
}
use gameoftrees.FileIndex.Codec.Flushed.{kept, length-kept, kept_invariants, insert_last, All-last}

abbrev pub all_chunks : List Entry → List Bytes
all_chunks [] = []
all_chunks (ie ∷ l) = entry_chunks ie ++ all_chunks l

flatten-flatten :
    (a b : List Bytes) (rest : Bytes) → flatten (a ++ b) rest ≡ flatten a (flatten b rest)
flatten-flatten [] b rest = refl
flatten-flatten (x ∷ a) b rest = ap (λ (t : Bytes). x ++ t) (flatten-flatten a b rest)

length-header : (n : ℕ) → length (flatten (header_chunks n) []) ≡ 12
unfolding be_onto
length-header n = refl

module _ (sha : Sha1) where
  hash-append : (c : sha.Ctx) (a b : List Bytes) → hash sha c (a ++ b) ≡ hash sha (hash sha c a) b
  hash-append c [] b = refl
  hash-append c (x ∷ a) b = hash-append (sha.update c x) a b

  abbrev written : List Entry → sha.Ctx → Bytes → ℕ → Result (List Entry × Writer sha)
  written l c out room = ok (l, writer sha c out room)

  written_eq :
      (l : List Entry) (c c' : sha.Ctx) (out out' : Bytes) (room room' : ℕ)
      → c ≡ c'
      → out ≡ out'
      → room ≡ room'
      → written l c out room ≡ written l c' out' room'
  written_eq l c c' out out' room room' h k j = rw (h, k, j) refl

  abbrev reader : sha.Ctx → Bytes → Reader sha
  reader c input = record { ctx = c; input = input }

  abbrev index : List Entry → ℕ → Index
  index l n = record { entries = l; nentries = n }

  abbrev loaded : List Entry → ℕ → sha.Ctx → Bytes → Result (Index × Reader sha)
  loaded l m c rest = ok (index l m, reader c rest)

  loaded_eq :
      (l l' : List Entry) (m m' : ℕ) (c c' : sha.Ctx) (rest : Bytes)
      → l ≡ l'
      → m ≡ m'
      → c ≡ c'
      → loaded l m c rest ≡ loaded l' m' c' rest
  loaded_eq l l' m m' c c' rest h k j = rw (h, k, j) refl

  write_entries-kept :
      (l : List Entry) (c : sha.Ctx) (out : Bytes) (room : ℕ)
      → length (flatten (all_chunks (kept l)) []) ≤ room
      → write_entries sha l (writer sha c out room)
        ≡ ok (
          kept l,
          writer sha
              (hash sha c (all_chunks (kept l)))
              (out ++ flatten (all_chunks (kept l)) [])
              (room - length (flatten (all_chunks (kept l)) [])),
        )
  unfolding write_entries write_entry
  write_entries-kept [] c out room h =
      written_eq [] c c out _ room _ refl (sym (append-nil out)) (omega arith)
  write_entries-kept (f ∷ l) c out room h = elim (Bool-cases (is_removed (flushed f))) [
    | inl gone ↦
        let same : kept (f ∷ l) ≡ kept l = rw (kept, gone) refl in
        rw (same, gone) (write_entries-kept l c out room (rw (sym same) h))
    | inr stays ↦
        let same : kept (f ∷ l) ≡ flushed f ∷ kept l = rw (kept, stays) refl in
        let mine : List Bytes = entry_chunks (flushed f) in
        let others : List Bytes = all_chunks (kept l) in
        let bytes : flatten (mine ++ others) [] ≡ flatten mine [] ++ flatten others [] =
          flatten-flatten mine others [] ∙ sym (flatten-append mine (flatten others [])) in
        let fits : length (flatten mine [] ++ flatten others []) ≤ room =
          rw (sym (ap (λ (t : List Entry). flatten (all_chunks t) []) same ∙ bytes)) h in
        let n : length (flatten mine [] ++ flatten others [])
            ≡ length (flatten mine []) + length (flatten others []) =
          length-append (flatten mine []) (flatten others []) in
        rw
          (
            same,
            stays,
            write_chunks-flatten sha mine c out room (omega arith),
            write_entries-kept l (hash sha c mine) (out ++ flatten mine [])
                (room - length (flatten mine [])) (omega arith),
            bytes,
          )
          (written_eq (flushed f ∷ kept l) _ _ _ _ _ _ (sym (hash-append c mine others))
            (append_assoc out (flatten mine []) (flatten others [])) (omega arith))
  ]

  module _ (rb : RbTree) (allocated : ℕ → Bool) (enough : (n : ℕ) → allocated n ≡ true) where
    read_entries-chunks :
        (l acc : List Entry) (m : ℕ) (rest : Bytes) (c : sha.Ctx)
        → All IsStorable l
        → All IsProper acc
        → All IsProper (map recorded l)
        → IsSorted (acc ++ map recorded l)
        → m + length l ≤ int_max
        → read_entries sha rb allocated
            (length l)
            2
            (record { entries = acc; nentries = m })
            (record { ctx = c; input = flatten (all_chunks l) rest })
          ≡ ok (
            record { entries = acc ++ map recorded l; nentries = m + length l },
            record { ctx = hash sha c (all_chunks l); input = rest },
          )
    unfolding read_entries
    read_entries-chunks [] acc m rest c hs ha hl s b =
        loaded_eq acc _ m _ c c rest (sym (append-nil acc)) (omega arith) refl
    read_entries-chunks (ie ∷ l) acc m rest c hs ha hl s b =
        let x : Entry = recorded ie in
        let (inserted, sorted) = insert_last acc (map recorded l) x ha hl.0 s in
        rw
          (
            flatten-flatten (entry_chunks ie) (all_chunks l) rest,
            read_entry-chunks sha allocated enough ie (flatten (all_chunks l) rest) c hs.0,
            add_entry-room rb (record { entries = acc; nentries = m }) x (acc ++ (x ∷ []))
                (omega arith) (rb.insert_law acc x sorted ∙ inserted),
          )
          (read_entries-chunks l (acc ++ (x ∷ [])) (m + 1) rest (hash sha c (entry_chunks ie)) hs.1
              (All-last IsProper acc x ha hl.0) hl.1
              (rw (append_assoc acc (x ∷ []) (map recorded l)) s) (omega arith)
            ∙ loaded_eq _ _ _ _ _ _ rest (append_assoc acc (x ∷ []) (map recorded l)) (omega arith)
                (sym (hash-append c (entry_chunks ie) (all_chunks l))))

    header_word-append :
        (fileindex : Index) (next : Bytes → Bytes → Result Index) (b rest : Bytes)
        → length b ≡ 4
        → header_word sha fileindex next (b ++ rest) ≡ next b rest
    unfolding header_word
    header_word-append fileindex next b rest h =
        rw (sym h, take-append b rest, drop-append b rest)
          (ground (arith, length-append {0} b rest))

    read_checksum-final :
        (fileindex : Index) (c : sha.Ctx)
        → read_checksum sha fileindex (reader c (sha.final c)) ≡ ok fileindex
    unfolding read_checksum
    read_checksum-final fileindex c =
        let whole : take 20 (sha.final c) ≡ sha.final c = rw (sym (sha.final_law c)) (
          ap (take (length (sha.final c))) (sym (append-nil (sha.final c)))
          ∙ take-append (sha.final c) []) in
        rw (whole, (bytes_eq_iff (sha.final c) (sha.final c)).1 refl)
          (ground (arith, sha.final_law c))

    read_body-written :
        (l : List Entry) (c : sha.Ctx)
        → c ≡ hash sha (hash sha sha.init (header_chunks (length l))) (all_chunks l)
        → All IsStorable l
        → All IsProper (map recorded l)
        → IsSorted (map recorded l)
        → length l ≤ int_max
        → read_body sha rb allocated
            (record { entries = []; nentries = 0 })
            (be 4 0x676f7449)
            (be 4 2)
            (be 4 (length l))
            (flatten (all_chunks l) (sha.final c))
          ≡ ok (record { entries = map recorded l; nentries = length l })
    unfolding read_body
    read_body-written l c h hs hp s small =
        let start : sha.Ctx = hash sha sha.init (header_chunks (length l)) in
        rw
          (
            be_fold-be 4 0x676f7449 (omega arith),
            be_fold-be 4 2 (omega arith),
            be_fold-be 4 (length l) (omega arith),
            read_entries-chunks l [] 0 (sha.final c) start hs tt hp s (omega arith),
            h,
            (let all_read : 0 + length l ≡ length l = omega arith in all_read),
          )
          (read_checksum-final (index (map recorded l) (length l)) (hash sha start (all_chunks l)))

    fileindex_read-header :
        (n : ℕ) (rest : Bytes) (fileindex : Index)
        → fileindex_read sha rb allocated fileindex (flatten (header_chunks n) rest)
          ≡ read_body sha rb allocated fileindex (be 4 0x676f7449) (be 4 2) (be 4 n) rest
    unfolding fileindex_read
    fileindex_read-header n rest fileindex =
        header_word-append fileindex _ (be 4 0x676f7449) _ (length-be_onto 4 0x676f7449 [])
        ∙ header_word-append fileindex _ (be 4 2) _ (length-be_onto 4 2 [])
        ∙ header_word-append fileindex _ (be 4 n) rest (length-be_onto 4 n [])

    -- got_fileindex_write of a valid index whose entries' fields fit their C types, to a file with
    -- room where fflush(3) succeeds, leaves in the index the entries not flagged for removal, no
    -- longer flagged as not flushed. got_fileindex_read of the file into an empty index, where
    -- memory can be allocated, succeeds: it checks the header and the checksum, and leaves the
    -- same entries in the same order, with a staged blob id of zeros unless the stage is "modify"
    -- or "add", and the same count.
    pub fileindex_read-fileindex_write :
        (fileindex : Index) (room : ℕ)
        → IsValid fileindex
        → All IsStorable fileindex.entries
        → 12 + length (flatten (all_chunks (kept fileindex.entries)) []) + 20 ≤ room
        → (bytes : Bytes) × (fileindex_write sha true fileindex room
            ≡ ok
                (record { entries = kept fileindex.entries; nentries = fileindex.nentries }, bytes))
          × (fileindex_read sha rb allocated (record { entries = []; nentries = 0 }) bytes
              ≡ ok (record {
                entries = map recorded (kept fileindex.entries);
                nentries = fileindex.nentries;
              }))
    unfolding fileindex_write
    fileindex_read-fileindex_write fileindex room (sorted, proper, counted, small) storable h =
        let l : List Entry = kept fileindex.entries in
        let n : ℕ = fileindex.nentries in
        let (read_sorted, read_proper, read_storable) =
          kept_invariants fileindex.entries storable proper sorted in
        let head : Bytes = flatten (header_chunks n) [] in
        let start : sha.Ctx = hash sha sha.init (header_chunks n) in
        let end : sha.Ctx = hash sha start (all_chunks l) in
        let sum : Bytes = sha.final end in
        let shape : (head ++ flatten (all_chunks l) []) ++ sum
            ≡ flatten (header_chunks n) (flatten (all_chunks l) sum) =
          append_assoc head (flatten (all_chunks l) []) sum
          ∙ ap (λ (t : Bytes). head ++ t) (flatten-append (all_chunks l) sum)
          ∙ flatten-append (header_chunks n) (flatten (all_chunks l) sum) in
        let stays : n ≡ length l = counted ∙ sym (length-kept fileindex.entries) in
        (
          (head ++ flatten (all_chunks l) []) ++ sum,
          rw
              (
                write_chunks-flatten sha (header_chunks n) sha.init [] room
                    (omega (arith, length-header n)),
                write_entries-kept fileindex.entries start head (room - length head)
                    (omega (arith, length-header n)),
                write_chunk-fits sha sum end (head ++ flatten (all_chunks l) [])
                    (room - length head - length (flatten (all_chunks l) []))
                    (omega (arith, length-header n, sha.final_law end)),
              )
              refl,
          ap (fileindex_read sha rb allocated (index [] 0)) shape
              ∙ fileindex_read-header n (flatten (all_chunks l) sum) (index [] 0)
              ∙ rw stays
                  (read_body-written l _ refl read_storable read_proper read_sorted (omega arith)),
        )
