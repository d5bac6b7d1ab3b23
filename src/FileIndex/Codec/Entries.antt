-- ===== src/FileIndex/Codec/Entries.antt =====
-- An entry in the file: what write_fileindex_entry writes, read_fileindex_entry reads back.
use gameoftrees.Base.{
  ℕ, ◌+◌, ◌-◌, ◌^◌, ◌≡◌, ◌≤◌, ◌<◌, refl, sym, ap, ◌∙◌, Bool, true, false, List, [], ◌∷◌, ◌++◌,
  Bytes, if◌then◌else◌, length, replicate, arith, append_assoc, append-nil, length-append,
  Bool-cases, inl, inr,
}
use gameoftrees.Error.{ok}
use gameoftrees.FileIndex.{Entry, entry_stage_get}
use gameoftrees.FileIndex.Codec.{
  Sha1, be, has_nul, has_staged_blob, staged_chunks, entry_chunks, Writer, write_chunk,
  write_chunks, write_entry, read_val, read_staged, read_entry,
}
use gameoftrees.FileIndex.Codec.Numbers.{length-be_onto, be_fold-be}
use gameoftrees.FileIndex.Codec.Paths.{read_chunk-append, read_path-padded}

-- The bytes of chunks, before `rest`.
abbrev pub flatten : List Bytes → Bytes → Bytes
flatten [] rest = rest
flatten (b ∷ bs) rest = b ++ flatten bs rest

pub flatten-append : (bs : List Bytes) (rest : Bytes) → flatten bs [] ++ rest ≡ flatten bs rest
flatten-append [] rest = refl
flatten-append (b ∷ bs) rest =
    append_assoc b (flatten bs []) rest ∙ ap (λ (t : Bytes). b ++ t) (flatten-append bs rest)

-- An entry whose fields are of their C types' sizes.
pub record IsStorable (ie : Entry) : Type 0 where
  pub ctime_sec_fits : ie.ctime_sec < 2 ^ 64
  pub ctime_nsec_fits : ie.ctime_nsec < 2 ^ 64
  pub mtime_sec_fits : ie.mtime_sec < 2 ^ 64
  pub mtime_nsec_fits : ie.mtime_nsec < 2 ^ 64
  pub uid_fits : ie.uid < 2 ^ 32
  pub gid_fits : ie.gid < 2 ^ 32
  pub size_fits : ie.size < 2 ^ 32
  pub mode_fits : ie.mode < 2 ^ 16
  pub flags_fit : ie.flags < 2 ^ 32
  pub blob_length : length ie.blob_sha1 ≡ 20
  pub commit_length : length ie.commit_sha1 ≡ 20
  pub staged_length : length ie.staged_blob_sha1 ≡ 20
  pub path_clean : has_nul ie.path ≡ false

-- What the file records of an entry: the staged blob only for the stages "modify" and "add".
abbrev pub recorded : Entry → Entry
recorded ie = if has_staged_blob ie then ie else record ie { staged_blob_sha1 = replicate 20 0 }

module _ (sha : Sha1) where
  -- The hash after chunks.
  abbrev pub hash : sha.Ctx → List Bytes → sha.Ctx
  hash c [] = c
  hash c (b ∷ bs) = hash (sha.update c b) bs

  abbrev pub writer : sha.Ctx → Bytes → ℕ → Writer sha
  writer c out room = record { ctx = c; out = out; room = room }

  writer_eq :
      (c : sha.Ctx) (out out' : Bytes) (room room' : ℕ)
      → out ≡ out'
      → room ≡ room'
      → ok (writer c out room) ≡ ok (writer c out' room')
  writer_eq c out out' room room' h k = rw (h, k) refl

  pub write_chunk-fits :
      (b : Bytes) (c : sha.Ctx) (out : Bytes) (room : ℕ)
      → length b ≤ room
      → write_chunk sha b (record { ctx = c; out = out; room = room })
        ≡ ok (record { ctx = sha.update c b; out = out ++ b; room = room - length b })
  unfolding write_chunk
  write_chunk-fits b c out room h = ground arith

  pub write_chunks-flatten :
      (bs : List Bytes) (c : sha.Ctx) (out : Bytes) (room : ℕ)
      → length (flatten bs []) ≤ room
      → write_chunks sha bs (record { ctx = c; out = out; room = room })
        ≡ ok (record {
          ctx = hash c bs;
          out = out ++ flatten bs [];
          room = room - length (flatten bs []);
        })
  unfolding write_chunks
  write_chunks-flatten [] c out room h =
      writer_eq c out _ room _ (sym (append-nil out)) (omega arith)
  write_chunks-flatten (b ∷ bs) c out room h =
      let n : length (b ++ flatten bs []) ≡ length b + length (flatten bs []) =
        length-append b (flatten bs []) in
      rw (write_chunk-fits b c out room (omega arith)) (
        write_chunks-flatten bs (sha.update c b) (out ++ b) (room - length b) (omega arith)
        ∙ writer_eq (hash (sha.update c b) bs) _ _ _ _ (append_assoc out b (flatten bs []))
            (omega arith))

  read_val-be :
      (n v : ℕ) (rest : Bytes) (c : sha.Ctx)
      → v < 256 ^ n
      → read_val sha n (record { ctx = c; input = be n v ++ rest })
        ≡ ok (v, record { ctx = sha.update c (be n v); input = rest })
  unfolding read_val
  read_val-be n v rest c h =
      rw
        (
          read_chunk-append sha n (be n v) rest c (omega (arith, length-be_onto n v [])),
          be_fold-be n v h,
        )
        refl

  module _ (allocated : ℕ → Bool) (enough : (n : ℕ) → allocated n ≡ true) where
    read_staged-chunks :
        (ie : Entry) (rest : Bytes) (c : sha.Ctx)
        → length ie.staged_blob_sha1 ≡ 20
        → read_staged sha 2
            (record ie { staged_blob_sha1 = replicate 20 0 })
            (record { ctx = c; input = flatten (staged_chunks ie) rest })
          ≡ ok (recorded ie, record { ctx = hash c (staged_chunks ie); input = rest })
    unfolding read_staged staged_chunks entry_stage_get
    read_staged-chunks ie rest c h = elim (Bool-cases (has_staged_blob ie)) [
      | inl staged ↦ rw (staged, read_chunk-append sha 20 ie.staged_blob_sha1 rest c h) refl
      | inr unstaged ↦ rw unstaged refl
    ]

    pub read_entry-chunks :
        (ie : Entry) (rest : Bytes) (c : sha.Ctx)
        → IsStorable ie
        → read_entry sha true allocated 2
            (record { ctx = c; input = flatten (entry_chunks ie) rest })
          ≡ ok (recorded ie, record { ctx = hash c (entry_chunks ie); input = rest })
    unfolding read_entry entry_chunks
    read_entry-chunks ie rest c s =
        rw
          (
            read_val-be 8 ie.ctime_sec _ _ s.ctime_sec_fits,
            read_val-be 8 ie.ctime_nsec _ _ s.ctime_nsec_fits,
            read_val-be 8 ie.mtime_sec _ _ s.mtime_sec_fits,
            read_val-be 8 ie.mtime_nsec _ _ s.mtime_nsec_fits,
            read_val-be 4 ie.uid _ _ s.uid_fits,
            read_val-be 4 ie.gid _ _ s.gid_fits,
            read_val-be 4 ie.size _ _ s.size_fits,
            read_val-be 2 ie.mode _ _ s.mode_fits,
            read_chunk-append sha 20 ie.blob_sha1 _ _ s.blob_length,
            read_chunk-append sha 20 ie.commit_sha1 _ _ s.commit_length,
            read_val-be 4 ie.flags _ _ s.flags_fit,
            read_path-padded sha allocated enough ie.path _ _ s.path_clean,
          )
          (read_staged-chunks ie rest _ s.staged_length)

    -- write_fileindex_entry of an entry whose fields fit their C types, with room in the file,
    -- writes bytes from which read_fileindex_entry for version 2, whatever follows them, reads the
    -- entry back, with a staged blob id of zeros unless its stage is "modify" or "add". The
    -- reader consumes exactly those bytes and its hash state is the writer's.
    pub read_entry-write_entry :
        (ie : Entry) (c : sha.Ctx) (out : Bytes) (room : ℕ)
        → IsStorable ie
        → length (flatten (entry_chunks ie) []) ≤ room
        → (bytes : Bytes) × (c' : sha.Ctx) × (write_entry sha ie
              (record { ctx = c; out = out; room = room })
            ≡ ok (record { ctx = c'; out = out ++ bytes; room = room - length bytes }))
          × ((rest : Bytes)
              → read_entry sha true allocated 2 (record { ctx = c; input = bytes ++ rest })
                ≡ ok (recorded ie, record { ctx = c'; input = rest }))
    unfolding write_entry
    read_entry-write_entry ie c out room s h = (
      flatten (entry_chunks ie) [],
      hash c (entry_chunks ie),
      write_chunks-flatten (entry_chunks ie) c out room h,
      λ rest. rw (flatten-append (entry_chunks ie) rest) (read_entry-chunks ie rest c s),
    )
