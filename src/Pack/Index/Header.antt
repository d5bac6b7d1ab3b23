-- ===== src/Pack/Index/Header.antt =====
-- got_packidx_init_hdr of lib/pack.c on a pack index in memory: its tables, read at an offset into
-- the map while `remain` counts the bytes behind it.
pub mod Words
pub mod Bounds
use gameoftrees.Base.{
  ℕ, zero, suc, ◌+◌, ◌-◌, ◌*◌, ◌%◌, ◌^◌, Bool, true, false, ◌&&◌, not, List, [], ◌∷◌, ◌++◌, Bytes,
  map, bit_and, ltb, leb, ◌==◌, if◌then◌else◌, length, take, drop, bytes_eq,
}
use gameoftrees.Error.{
  bad_packidx, packidx_csum, out_of_bounds, int_overflow, Result, ok, err, trap, ◌>>=◌,
}
use gameoftrees.FileIndex.Codec.{Sha1, be_fold}
use gameoftrees.Pack.Index.{PackIdx, entry_at, verify_fanout_table}

-- The `n` bytes at an offset into the map.
pub view : Bytes → ℕ → ℕ → Result Bytes
view map_bytes offset n =
    if ltb (length map_bytes) (offset + n)
    then trap out_of_bounds
    else ok (take n (drop offset map_bytes))

-- The first `count` groups of `n` bytes.
pub groups : ℕ → ℕ → Bytes → List Bytes
groups zero n b = []
groups (suc count) n b = take n b ∷ groups count n (drop n b)

-- Numbers of `n` bytes, big-endian.
pub words : ℕ → ℕ → Bytes → List ℕ
words count n b = map (be_fold 0) (groups count n b)

-- How many entries of the offsets table refer to the table of large offsets.
pub large_entries : List ℕ → ℕ
large_entries [] = 0
large_entries (o ∷ offsets) = (if bit_and o 0x80000000 == 0 then 0 else 1) + large_entries offsets

-- The loop that counts them; its counter is an `int`, which 2 ^ 31 entries overflow.
pub count_large : List ℕ → Result ℕ
count_large offsets =
    if leb (2 ^ 31) (length offsets) then trap int_overflow else ok (large_entries offsets)

module _ (sha : Sha1) (verify : Bool) (map_bytes : Bytes) where
  pub record Scan : Type 0 where
    pub offset : ℕ
    pub remain : ℕ
    pub ctx : sha.Ctx

  -- One table of `n` bytes: the test of `remain`, the table, and the steps over it.
  pub section : ℕ → Scan → Result (Bytes × Scan)
  section n s =
      if ltb s.remain n
      then err bad_packidx
      else (view map_bytes s.offset n >>= λ b. ok (
        b,
        record {
          offset = s.offset + n;
          remain = s.remain - n;
          ctx = if verify then sha.update s.ctx b else s.ctx;
        },
      ))

  -- A header word, with the value that it must have.
  pub expect : ℕ → Scan → Result Scan
  expect value s = do (b, s') ← section 4 s; if be_fold 0 b == value then ok s' else err bad_packidx

  pub read_fanout : Scan → Result (List ℕ × Scan)
  read_fanout s = do
    (b, s') ← section (4 * 256) s
    let table = words 256 4 b
    _ ← verify_fanout_table table
    ok (table, s')

  pub read_ids : ℕ → Scan → Result (List Bytes × Scan)
  read_ids nobj s =
      let len_ids = nobj * 20 % 2 ^ 64 in
      let ids = section len_ids s >>= λ (b, s'). ok (groups nobj 20 b, s') in
      if leb len_ids nobj then err bad_packidx else ids

  pub read_words : ℕ → ℕ → Scan → Result (List ℕ × Scan)
  read_words count n s = do (b, s') ← section (count * n) s; ok (words count n b, s')

  -- The table of large offsets is skipped where there are none.
  pub read_large : ℕ → Scan → Result (List ℕ × Scan)
  read_large nlargeobj s = if nlargeobj == 0 then ok ([], s) else read_words nlargeobj 8 s

  -- The trailer: the checksum of the pack file, which is hashed, and that of the index.
  pub read_trailer : Scan → Result (Unit {0})
  read_trailer s = if ltb s.remain 40 then err bad_packidx else do
    pack_sha1 ← view map_bytes s.offset 20
    idx_sha1 ← view map_bytes (s.offset + 20) 20
    if verify && not (bytes_eq idx_sha1 (sha.final (sha.update s.ctx pack_sha1)))
        then err packidx_csum
        else ok tt

  -- The tables behind the identifiers.
  pub read_tables : List ℕ → ℕ → List Bytes → Scan → Result PackIdx
  read_tables fanout_table nobj sorted_ids s4 = do
    (crc32, s5) ← read_words nobj 4 s4
    (offsets, s6) ← read_words nobj 4 s5
    nlargeobj ← count_large offsets
    (large_offsets, s7) ← read_large nlargeobj s6
    _ ← read_trailer s7
    ok (record {
      fanout_table = fanout_table;
      sorted_ids = sorted_ids;
      crc32 = crc32;
      offsets = offsets;
      large_offsets = large_offsets;
      nlargeobj = nlargeobj;
    })

  pub init_hdr : Result PackIdx
  init_hdr = do
    s1 ← expect 0xff744f63 (record { offset = 0; remain = length map_bytes; ctx = sha.init })
    s2 ← expect 2 s1
    (fanout_table, s3) ← read_fanout s2
    nobj ← entry_at fanout_table 0xff
    (sorted_ids, s4) ← read_ids nobj s3
    read_tables fanout_table nobj sorted_ids s4
