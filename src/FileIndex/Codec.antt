-- ===== src/FileIndex/Codec.antt =====
-- lib/fileindex.c: the index as a file. The file is a sequence of chunks, each of which is hashed
-- and written, or read and hashed. SHA1 is a parameter, with its update a chunk at a time.
mod Tests
pub mod Numbers
pub mod Paths
pub mod Entries
pub mod Flushed
pub mod File
use gameoftrees.Base.{
  ℕ, zero, suc, ◌+◌, ◌-◌, ◌*◌, ◌/◌, ◌%◌, ◌^◌, ◌≡◌, Bool, true, false, ◌&&◌, ◌||◌, not, List, [],
  ◌∷◌, ◌++◌, Bytes, bytes_eq, bit_and, ltb, ◌==◌, if◌then◌else◌, length, take, drop, replicate,
}
use gameoftrees.Error.{
  errno, fileidx_bad, fileidx_sig, fileidx_ver, fileidx_csum, Result, ok, err, ◌>>=◌,
}
use gameoftrees.FileIndex.{Entry, zeroed, clear32, f_stage, f_not_flushed, entry_stage_get}
use gameoftrees.FileIndex.Tree.{RbTree, Index, is_removed, add_entry}

pub record Sha1 : Type 1 where
  pub Ctx : Type 0
  pub init : Ctx
  pub update : Ctx → Bytes → Ctx
  pub final : Ctx → Bytes
  pub update_law : (c : Ctx) (a b : Bytes) → update (update c a) b ≡ update c (a ++ b)
  pub final_law : (c : Ctx) → length (final c) ≡ 20

-- htobe16, htobe32 and htobe64: `n` bytes before the bytes `acc`.
pub be_onto : ℕ → ℕ → Bytes → Bytes
be_onto zero v acc = acc
be_onto (suc n) v acc = be_onto n (v / 256) ((v % 256) ∷ acc)

abbrev pub be : ℕ → ℕ → Bytes
be n v = be_onto n v []

-- be16toh, be32toh and be64toh.
unfoldable pub be_fold : ℕ → Bytes → ℕ
be_fold acc [] = acc
be_fold acc (b ∷ bs) = be_fold (acc * 256 + b) bs

-- `while ((len + pad) % 8 != 0) pad++`; eight rounds are enough.
pub pad_loop : ℕ → ℕ → ℕ → ℕ
pad_loop zero len pad = pad
pad_loop (suc fuel) len pad =
    let more = pad_loop fuel len (pad + 1) in if (len + pad) % 8 == 0 then pad else more

pub path_pad : ℕ → ℕ
path_pad len = let pad = pad_loop 8 len 0 in if pad == 0 then 8 else pad

abbrev pub has_staged_blob : Entry → Bool
has_staged_blob ie = entry_stage_get ie == 1 || entry_stage_get ie == 2

pub staged_chunks : Entry → List Bytes
staged_chunks ie = if has_staged_blob ie then ie.staged_blob_sha1 ∷ [] else []

-- What write_fileindex_entry writes, in its order.
pub entry_chunks : Entry → List Bytes
entry_chunks ie =
    be 8 ie.ctime_sec
    ∷ be 8 ie.ctime_nsec
    ∷ be 8 ie.mtime_sec
    ∷ be 8 ie.mtime_nsec
    ∷ be 4 ie.uid
    ∷ be 4 ie.gid
    ∷ be 4 ie.size
    ∷ be 2 ie.mode
    ∷ ie.blob_sha1
    ∷ ie.commit_sha1
    ∷ be 4 ie.flags
    ∷ ie.path
    ∷ replicate (path_pad (length ie.path)) 0
    ∷ staged_chunks ie

-- `memchr(chunk, '\0', chunk_size) != NULL`
pub has_nul : Bytes → Bool
has_nul [] = false
has_nul (c ∷ s) = c == 0 || has_nul s

-- The string at the start of a buffer.
pub c_string : Bytes → Bytes
c_string [] = []
c_string (c ∷ s) = let rest = c_string s in if c == 0 then [] else c ∷ rest

-- `ie->flags &= ~GOT_FILEIDX_F_NOT_FLUSHED`
abbrev pub flushed : Entry → Entry
flushed ie = record ie { flags = clear32 ie.flags f_not_flushed }

abbrev pub header_chunks : ℕ → List Bytes
header_chunks nentries = be 4 0x676f7449 ∷ be 4 2 ∷ be 4 nentries ∷ []

module _ (sha : Sha1) where
  -- The hash and the file, which has room for `room` more bytes.
  pub record Writer : Type 0 where
    pub ctx : sha.Ctx
    pub out : Bytes
    pub room : ℕ

  -- SHA1Update and fwrite(3).
  pub write_chunk : Bytes → Writer → Result Writer
  write_chunk b w =
      if ltb w.room (length b)
      then err errno
      else ok (record { ctx = sha.update w.ctx b; out = w.out ++ b; room = w.room - length b })

  pub write_chunks : List Bytes → Writer → Result Writer
  write_chunks [] w = ok w
  write_chunks (b ∷ bs) w = write_chunk b w >>= λ w'. write_chunks bs w'

  pub write_entry : Entry → Writer → Result Writer
  write_entry ie w = write_chunks (entry_chunks ie) w

  -- The loop of got_fileindex_write: the entries that stay in the tree, and the file.
  pub write_entries : List Entry → Writer → Result (List Entry × Writer)
  write_entries [] w = ok ([], w)
  write_entries (ie ∷ l) w =
      let skipped = write_entries l w in
      let written = write_entry (flushed ie) w >>= λ w'.
      (write_entries l w' >>= λ (l', w''). ok (flushed ie ∷ l', w'')) in
      if is_removed (flushed ie) then skipped else written

  -- Writes to an empty file. `flushes` says whether fflush(3) succeeds. The checksum is written
  -- and not hashed.
  pub fileindex_write : Bool → Index → ℕ → Result (Index × Bytes)
  fileindex_write flushes fileindex room = do
    w ←
        write_chunks (header_chunks fileindex.nentries)
          (record { ctx = sha.init; out = []; room = room })
    (l, w') ← write_entries fileindex.entries w
    w'' ← write_chunk (sha.final w'.ctx) w'
    if flushes
        then ok (record { entries = l; nentries = fileindex.nentries }, w''.out)
        else err errno

  -- The hash and the rest of the file.
  pub record Reader : Type 0 where
    pub ctx : sha.Ctx
    pub input : Bytes

  -- fread(3), whose short count is the end of the file, and SHA1Update.
  pub read_chunk : ℕ → Reader → Result (Bytes × Reader)
  read_chunk n r =
      if ltb (length r.input) n
      then err fileidx_bad
      else ok (
        take n r.input,
        record { ctx = sha.update r.ctx (take n r.input); input = drop n r.input },
      )

  pub read_val : ℕ → Reader → Result (ℕ × Reader)
  read_val n r = do (b, r') ← read_chunk n r; ok (be_fold 0 b, r')

  -- The loop of read_fileindex_path with `acc` read, into a buffer that `allocated` says can
  -- be had at its size. A round takes 8 bytes, so that as much fuel as bytes is enough.
  pub read_path_loop : (ℕ → Bool) → ℕ → Bytes → Reader → Result (Bytes × Reader)
  read_path_loop allocated zero acc r = err fileidx_bad
  read_path_loop allocated (suc fuel) acc r =
      if not (allocated (length acc + 8)) then err errno else do
        (b, r') ← read_chunk 8 r
        let more = read_path_loop allocated fuel (acc ++ b) r'
        if has_nul b then ok (c_string (acc ++ b), r') else more

  pub read_path : (ℕ → Bool) → Reader → Result (Bytes × Reader)
  read_path allocated r = read_path_loop allocated (suc (length r.input)) [] r

  pub read_staged : ℕ → Entry → Reader → Result (Entry × Reader)
  read_staged version ie r =
      let staged = read_chunk 20 r >>= λ (b, r'). ok (record ie { staged_blob_sha1 = b }, r') in
      if ltb version 2
      then ok (record ie { flags = clear32 ie.flags f_stage }, r)
      else if has_staged_blob ie
      then staged
      else ok (ie, r)

  pub read_entry : Bool → (ℕ → Bool) → ℕ → Reader → Result (Entry × Reader)
  read_entry entry_allocated path_allocated version r0 =
      if not entry_allocated then err errno else do
        (ctime_sec, r1) ← read_val 8 r0
        (ctime_nsec, r2) ← read_val 8 r1
        (mtime_sec, r3) ← read_val 8 r2
        (mtime_nsec, r4) ← read_val 8 r3
        (uid, r5) ← read_val 4 r4
        (gid, r6) ← read_val 4 r5
        (size, r7) ← read_val 4 r6
        (mode, r8) ← read_val 2 r7
        (blob_sha1, r9) ← read_chunk 20 r8
        (commit_sha1, r10) ← read_chunk 20 r9
        (flags, r11) ← read_val 4 r10
        (path, r12) ← read_path path_allocated r11
        read_staged version
            (record zeroed {
              ctime_sec = ctime_sec;
              ctime_nsec = ctime_nsec;
              mtime_sec = mtime_sec;
              mtime_nsec = mtime_nsec;
              uid = uid;
              gid = gid;
              size = size;
              mode = mode;
              blob_sha1 = blob_sha1;
              commit_sha1 = commit_sha1;
              flags = flags;
              path = path;
            })
            r12

  -- A word of the header: at the end of the file got_fileindex_read returns with the index as it is.
  pub header_word : Index → (Bytes → Bytes → Result Index) → Bytes → Result Index
  header_word fileindex next input =
      if length input == 0
      then ok fileindex
      else if ltb (length input) 4
      then err fileidx_bad
      else next (take 4 input) (drop 4 input)

  pub read_checksum : Index → Reader → Result Index
  read_checksum fileindex r =
      if ltb (length r.input) 20
      then err fileidx_bad
      else if not (bytes_eq (sha.final r.ctx) (take 20 r.input))
      then err fileidx_csum
      else ok fileindex

  module _ (rb : RbTree) (allocated : ℕ → Bool) where
    -- The loop of got_fileindex_read over `n` entries, each of which calloc(3) has room for.
    pub read_entries : ℕ → ℕ → Index → Reader → Result (Index × Reader)
    read_entries zero version fileindex r = ok (fileindex, r)
    read_entries (suc n) version fileindex r = do
      (ie, r') ← read_entry true allocated version r
      fileindex' ← add_entry rb fileindex ie
      read_entries n version fileindex' r'

    pub read_body : Index → Bytes → Bytes → Bytes → Bytes → Result Index
    read_body fileindex signature version nentries input =
        if not (be_fold 0 signature == 0x676f7449)
        then err fileidx_sig
        else if ltb 2 (be_fold 0 version)
        then err fileidx_ver
        else do
          (fileindex', r) ←
              read_entries (be_fold 0 nentries) (be_fold 0 version) fileindex (record {
                ctx = sha.update (sha.update (sha.update sha.init signature) version) nentries;
                input = input;
              })
          read_checksum fileindex' r

    pub fileindex_read : Index → Bytes → Result Index
    fileindex_read fileindex input =
        header_word fileindex
          (λ signature r1.
            header_word fileindex
              (λ version r2.
                header_word fileindex
                  (λ nentries r3. read_body fileindex signature version nentries r3) r2)
              r1)
          input
