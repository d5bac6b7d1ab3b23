-- ===== src/Pack/Index/Header/Bounds.antt =====
-- got_packidx_init_hdr reads inside the map, and the tables that it accepts fit one another.
use gameoftrees.Base.{
  ℕ, ◌+◌, ◌-◌, ◌*◌, ◌%◌, ◌^◌, ◌≤◌, ◌<◌, ◌≡◌, sym, ap, ◌∙◌, Bool, ◌&&◌, not, List, Bytes, some, ltb,
  leb, ◌==◌, length, drop, bytes_eq, arith, length-take, length-drop, All, get_elem?, Bool-cases,
  inl, inr, refl, ◌⊎◌,
}
use gameoftrees.Error.{
  Result, ok, err, trap, int_overflow, ◌>>=◌, Ensures, Ensures-bind, Ensures-mono,
}
use gameoftrees.FileIndex.Codec.{Sha1, be_fold}
use gameoftrees.Pack.Index.{PackIdx, entry_at, verify_fanout_table}
use gameoftrees.Pack.Index.Header.{
  view, words, large_entries, count_large, Scan, section, expect, read_fanout, read_ids, read_words,
  read_large, read_trailer, read_tables, init_hdr,
}
use gameoftrees.Pack.Index.Header.Words.{
  length-groups, All-length-groups, length-words, IsByte, All-take, All-drop, All-words,
  fanout_loop-Ensures, entry_at-Ensures,
}

pub record IsFit (p : PackIdx) : Type 0 where
  pub whole : length p.fanout_table ≡ 256
  pub total : get_elem? p.fanout_table 0xff ≡ some (length p.sorted_ids)
  pub some_ids : 1 ≤ length p.sorted_ids
  pub sha1s : All (λ g. length g ≡ 20) p.sorted_ids
  pub crcs : length p.crc32 ≡ length p.sorted_ids
  pub places : length p.offsets ≡ length p.sorted_ids
  pub large : length p.large_offsets ≡ p.nlargeobj

module _ (sha : Sha1) (verify : Bool) (map_bytes : Bytes) (bytes : All IsByte map_bytes) where
  -- The offset and what remains make up the map.
  abbrev IsWithin : Scan sha verify map_bytes → Type 0
  IsWithin s = s.offset + s.remain ≡ length map_bytes

  view-length :
      (offset n : ℕ)
      → offset + n ≤ length map_bytes
      → Ensures (λ b. (length b ≡ n) × All IsByte b) (view map_bytes offset n)
  unfolding view
  view-length offset n h = elim (Bool-cases (ltb (length map_bytes) (offset + n))) [
    | inl past ↦ absurd (ground arith)
    | inr within ↦ rw within (
      omega (arith, length-take {0} n (drop offset map_bytes), length-drop {0} offset map_bytes),
      All-take n (drop offset map_bytes) (All-drop offset map_bytes bytes),
    )
  ]

  section-IsWithin :
      (n : ℕ) (s : Scan sha verify map_bytes)
      → IsWithin s
      → Ensures
          (λ r. (length r.0 ≡ n) × All IsByte r.0 × IsWithin r.1 × (n ≤ length map_bytes))
          (section sha verify map_bytes n s)
  unfolding section
  section-IsWithin n s h = elim (Bool-cases (ltb s.remain n)) [
    | inl less ↦ rw less tt
    | inr enough ↦ rw enough (
        Ensures-bind (λ b. (length b ≡ n) × All IsByte b) _ (view map_bytes s.offset n) _
          (view-length s.offset n (ground arith)) (λ b k. (k.0, k.1, ground arith, ground arith)))
  ]

  expect-IsWithin :
      (value : ℕ) (s : Scan sha verify map_bytes)
      → IsWithin s
      → Ensures IsWithin (expect sha verify map_bytes value s)
  unfolding expect
  expect-IsWithin value s h =
      Ensures-bind _ IsWithin (section sha verify map_bytes 4 s) _ (section-IsWithin 4 s h) (λ r k.
        elim (Bool-cases (be_fold 0 r.0 == value)) [
          | inl same ↦ rw same k.2
          | inr other ↦ rw other tt
        ])

  read_words-IsWithin :
      (count n : ℕ) (s : Scan sha verify map_bytes)
      → IsWithin s
      → Ensures
          (λ r. (length r.0 ≡ count) × IsWithin r.1 × (count * n ≤ length map_bytes))
          (read_words sha verify map_bytes count n s)
  unfolding read_words
  read_words-IsWithin count n s h =
      Ensures-bind _ _ (section sha verify map_bytes (count * n) s) _
        (section-IsWithin (count * n) s h) (λ r k. (length-words count n r.0, k.2, k.3))

  read_large-IsWithin :
      (n : ℕ) (s : Scan sha verify map_bytes)
      → IsWithin s
      → Ensures (λ r. (length r.0 ≡ n) × IsWithin r.1) (read_large sha verify map_bytes n s)
  unfolding read_large
  read_large-IsWithin n s h = elim (Bool-cases (n == 0)) [
    | inl no_large ↦ rw no_large (ground arith)
    | inr large ↦ rw large (
        Ensures-mono _ _ (read_words sha verify map_bytes n 8 s) (λ r k. (k.0, k.1))
          (read_words-IsWithin n 8 s h))
  ]

  read_fanout-IsWithin :
      (s : Scan sha verify map_bytes)
      → IsWithin s
      → Ensures
          (λ r. (length r.0 ≡ 256) × All (λ w. w < 2 ^ 32) r.0 × IsWithin r.1)
          (read_fanout sha verify map_bytes s)
  unfolding read_fanout verify_fanout_table
  read_fanout-IsWithin s h =
      Ensures-bind _ _ (section sha verify map_bytes (4 * 256) s) _ (section-IsWithin (4 * 256) s h)
        (λ r k.
          Ensures-bind (λ u. Unit {0}) _ (verify_fanout_table (words 256 4 r.0)) _
            (fanout_loop-Ensures (0xff - 1) (words 256 4 r.0)
              (omega (arith, length-words 256 4 r.0)))
            (λ u t. (length-words 256 4 r.0, All-words 256 r.0 k.0 k.1, k.2)))

  read_ids-IsWithin :
      (nobj : ℕ) (s : Scan sha verify map_bytes)
      → nobj < 2 ^ 32
      → IsWithin s
      → Ensures
          (λ r. (length r.0 ≡ nobj) × (1 ≤ nobj) × All (λ g. length g ≡ 20) r.0 × IsWithin r.1)
          (read_ids sha verify map_bytes nobj s)
  unfolding read_ids
  read_ids-IsWithin nobj s small h = elim (Bool-cases (leb (nobj * 20 % 2 ^ 64) nobj)) [
    | inl none_left ↦ rw none_left tt
    | inr some_left ↦ rw some_left (
        Ensures-bind _ _ (section sha verify map_bytes (nobj * 20 % 2 ^ 64) s) _
          (section-IsWithin (nobj * 20 % 2 ^ 64) s h)
          (λ r k. (
            length-groups nobj 20 r.0,
            ground arith,
            All-length-groups nobj 20 r.0 (omega (arith, k.0)),
            k.2,
          )))
  ]

  read_trailer-Ensures :
      (s : Scan sha verify map_bytes)
      → IsWithin s
      → Ensures (λ u. Unit {0}) (read_trailer sha verify map_bytes s)
  unfolding read_trailer
  read_trailer-Ensures s h = elim (Bool-cases (ltb s.remain 40)) [
    | inl less ↦ rw less tt
    | inr enough ↦ rw enough (
        Ensures-bind _ _ (view map_bytes s.offset 20) _ (view-length s.offset 20 (ground arith))
          (λ p k.
            Ensures-bind _ _ (view map_bytes (s.offset + 20) 20) _
              (view-length (s.offset + 20) 20 (ground arith))
              (λ q j.
                elim (Bool-cases (verify && not (bytes_eq q (sha.final (sha.update s.ctx p))))) [
                  | inl wrong ↦ rw wrong tt
                  | inr right ↦ rw right tt
                ])))
  ]

  -- A run that does so, but for a counter that overflows on a large map.
  abbrev Fits : Result PackIdx → Type 0
  Fits r = Ensures IsFit r ⊎ ((r ≡ trap int_overflow) × (2 ^ 33 ≤ length map_bytes))

  Fits-bind :
      {S : Type 0} (P : S → Type 0) (m : Result S) (f : S → Result PackIdx)
      → Ensures P m
      → ((s : S) → P s → Fits (f s))
      → Fits (m >>= f)
  Fits-bind P (ok s) f h k = k s h
  Fits-bind P (err e) f h k = inl tt
  Fits-bind P (trap z) f h k = absurd h

  -- Behind the count of the large offsets.
  large-IsFit :
      (fanout_table : List ℕ) (sorted_ids : List Bytes) (crc32 offsets : List ℕ)
      (s6 : Scan sha verify map_bytes)
      → length fanout_table ≡ 256
      → get_elem? fanout_table 0xff ≡ some (length sorted_ids)
      → 1 ≤ length sorted_ids
      → All (λ g. length g ≡ 20) sorted_ids
      → length crc32 ≡ length sorted_ids
      → length offsets ≡ length sorted_ids
      → IsWithin s6
      → Ensures IsFit (
          read_large sha verify map_bytes (large_entries offsets) s6 >>= λ (large_offsets, s7).
          read_trailer sha verify map_bytes s7 >>= λ u. ok (record {
            fanout_table = fanout_table;
            sorted_ids = sorted_ids;
            crc32 = crc32;
            offsets = offsets;
            large_offsets = large_offsets;
            nlargeobj = large_entries offsets;
          }))
  large-IsFit fanout_table sorted_ids crc32 offsets s6 whole total some_ids sha1s crcs places k6 =
      Ensures-bind _ IsFit (read_large sha verify map_bytes (large_entries offsets) s6) _
        (read_large-IsWithin (large_entries offsets) s6 k6)
        (λ r7 k7.
          Ensures-bind (λ u. Unit {0}) IsFit (read_trailer sha verify map_bytes r7.1) _
            (read_trailer-Ensures r7.1 k7.1)
            (λ u t. record {
              whole = whole;
              total = total;
              some_ids = some_ids;
              sha1s = sha1s;
              crcs = crcs;
              places = places;
              large = k7.0;
            }))

  tables-IsFit :
      (fanout_table : List ℕ) (nobj : ℕ) (sorted_ids : List Bytes) (s4 : Scan sha verify map_bytes)
      → length fanout_table ≡ 256
      → get_elem? fanout_table 0xff ≡ some nobj
      → (length sorted_ids ≡ nobj) × (1 ≤ nobj) × All (λ g. length g ≡ 20) sorted_ids × IsWithin s4
      → Fits (read_tables sha verify map_bytes fanout_table nobj sorted_ids s4)
  unfolding read_tables count_large
  tables-IsFit fanout_table nobj sorted_ids s4 whole total (n, some_ids, sha1s, k4) =
      Fits-bind _ (read_words sha verify map_bytes nobj 4 s4) _ (read_words-IsWithin nobj 4 s4 k4)
        (λ r5 k5.
          Fits-bind _ (read_words sha verify map_bytes nobj 4 r5.1) _
            (read_words-IsWithin nobj 4 r5.1 k5.1)
            (λ r6 k6. elim (Bool-cases (leb (2 ^ 31) (length r6.0))) [
              | inl many ↦ inr (rw many refl, ground arith)
              | inr few ↦ rw few (
                  inl (
                    large-IsFit fanout_table sorted_ids r5.0 r6.0 r6.1 whole
                      (total ∙ ap some (sym n)) (omega (arith, n, some_ids)) sha1s (k5.0 ∙ sym n)
                      (k6.0 ∙ sym n) k6.1))
            ]))

  -- On any bytes, with or without the verification of the checksum, got_packidx_init_hdr reads
  -- inside the map. Where the map is below 2 ^ 33 bytes, and above as long as the `int` that counts
  -- the objects does not overflow, it returns an error, or tables that fit: a fanout table of 256 entries, the
  -- last of which counts the identifiers, of which there are one or more; identifiers of 20
  -- bytes; a checksum and an offset for each; and as many large offsets as `nlargeobj` says.
  pub init_hdr-IsFit :
      Ensures IsFit (init_hdr sha verify map_bytes)
      ⊎ ((init_hdr sha verify map_bytes ≡ trap int_overflow) × (2 ^ 33 ≤ length map_bytes))
  unfolding init_hdr
  init_hdr-IsFit =
      Fits-bind IsWithin (expect sha verify map_bytes 0xff744f63 _) _
        (expect-IsWithin 0xff744f63 _ (omega arith))
        (λ s1 k1.
          Fits-bind IsWithin (expect sha verify map_bytes 2 s1) _ (expect-IsWithin 2 s1 k1)
            (λ s2 k2.
              Fits-bind _ (read_fanout sha verify map_bytes s2) _ (read_fanout-IsWithin s2 k2)
                (λ r3 k3.
                  Fits-bind _ (entry_at r3.0 0xff) _
                    (entry_at-Ensures (λ w. w < 2 ^ 32) r3.0 0xff (omega (arith, k3.0)) k3.1)
                    (λ nobj n.
                      Fits-bind _ (read_ids sha verify map_bytes nobj r3.1) _
                        (read_ids-IsWithin nobj r3.1 n.0 k3.2)
                        (λ r4 k4. tables-IsFit r3.0 nobj r4.0 r4.1 k3.0 n.1 k4)))))
