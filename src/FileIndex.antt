-- ===== src/FileIndex.antt =====
-- lib/fileindex.c: the entries of the file index of a work tree, and the words that hold their flags.
mod Tests
pub mod Flags
pub mod Tree
pub mod Codec
use gameoftrees.Base.{
  ℕ, zero, suc, ◌+◌, ◌-◌, ◌*◌, ◌/◌, ◌%◌, ◌^◌, Bool, true, false, ◌&&◌, ◌||◌, not, List, [], ◌∷◌,
  ◌++◌, Bytes, Option, none, some, bit_and, bit_or, ltb, leb, ◌==◌, if◌then◌else◌, length, take,
  drop, replicate,
}
use gameoftrees.Error.{errno, no_space, Result, ok, err, ◌>>=◌}

pub record Entry : Type 0 where
  pub ctime_sec : ℕ
  pub ctime_nsec : ℕ
  pub mtime_sec : ℕ
  pub mtime_nsec : ℕ
  pub uid : ℕ
  pub gid : ℕ
  pub size : ℕ
  pub mode : ℕ
  pub blob_sha1 : Bytes
  pub commit_sha1 : Bytes
  pub flags : ℕ
  pub path : Bytes
  pub staged_blob_sha1 : Bytes

-- Masks in `mode`, a uint16_t.
abbrev pub mode_regular_file : ℕ
mode_regular_file = 1

abbrev pub mode_symlink : ℕ
mode_symlink = 2

abbrev pub mode_bad_symlink : ℕ
mode_bad_symlink = 3

-- `x & ~mask` on a uint16_t and on a uint32_t.
abbrev clear16 : ℕ → ℕ → ℕ
clear16 x mask = bit_and x (2 ^ 16 - 1 - mask)

abbrev pub clear32 : ℕ → ℕ → ℕ
clear32 x mask = bit_and x (2 ^ 32 - 1 - mask)

abbrev pub f_path_len : ℕ
f_path_len = 0x00000fff

abbrev pub f_stage : ℕ
f_stage = 0x0000f000

abbrev pub f_not_flushed : ℕ
f_not_flushed = 0x00010000

abbrev pub f_no_blob : ℕ
f_no_blob = 0x00020000

abbrev pub f_no_commit : ℕ
f_no_commit = 0x00040000

abbrev pub f_no_file_on_disk : ℕ
f_no_file_on_disk = 0x00080000

abbrev pub f_remove_on_flush : ℕ
f_remove_on_flush = 0x00100000

pub entry_perms_get : Entry → ℕ
entry_perms_get ie = bit_and ie.mode 0xfff0 / 2 ^ 4

-- `mode` is a 32-bit mode_t.
pub entry_perms_set : Entry → ℕ → Entry
entry_perms_set ie mode = record ie {
  mode = bit_or (clear16 ie.mode 0xfff0) (bit_and (mode * 2 ^ 4 % 2 ^ 32) 0xfff0);
}

pub entry_filetype_get : Entry → ℕ
entry_filetype_get ie = bit_and ie.mode 0x0003

pub entry_filetype_set : Entry → ℕ → Entry
entry_filetype_set ie type = record ie {
  mode = bit_or (clear16 ie.mode 0x0003) (bit_and type 0x0003);
}

pub entry_staged_filetype_set : Entry → ℕ → Entry
entry_staged_filetype_set ie type = record ie {
  mode = bit_or (clear16 ie.mode 0x000c) (bit_and (type * 2 ^ 2) 0x000c);
}

pub entry_staged_filetype_get : Entry → ℕ
entry_staged_filetype_get ie = bit_and ie.mode 0x000c / 2 ^ 2

-- <sys/stat.h>
abbrev s_ifreg : ℕ
s_ifreg = 0o100000

abbrev s_iflnk : ℕ
s_iflnk = 0o120000

pub perms_to_st : Entry → ℕ
perms_to_st ie =
    let type = entry_filetype_get ie in
    let ftype =
      if type == mode_regular_file || type == mode_bad_symlink then s_ifreg else s_iflnk in
    bit_or ftype (bit_and (entry_perms_get ie) 0o777)

pub entry_path_len : Entry → ℕ
entry_path_len ie = bit_and ie.flags f_path_len

pub entry_stage_get : Entry → ℕ
entry_stage_get ie = bit_and ie.flags f_stage / 2 ^ 12

-- `stage` is a uint32_t.
pub entry_stage_set : Entry → ℕ → Entry
entry_stage_set ie stage = record ie {
  flags = bit_or (clear32 ie.flags f_stage) (bit_and (stage * 2 ^ 12 % 2 ^ 32) f_stage);
}

pub entry_has_blob : Entry → Bool
entry_has_blob ie = bit_and ie.flags f_no_blob == 0

pub entry_has_commit : Entry → Bool
entry_has_commit ie = bit_and ie.flags f_no_commit == 0

pub entry_has_file_on_disk : Entry → Bool
entry_has_file_on_disk ie = bit_and ie.flags f_no_file_on_disk == 0

pub entry_mark_deleted_from_disk : Entry → Entry
entry_mark_deleted_from_disk ie = record ie { flags = bit_or ie.flags f_no_file_on_disk }

abbrev pub sha1_digest_length : ℕ
sha1_digest_length = 20

-- `calloc(1, sizeof(*ie))`
abbrev pub zeroed : Entry
zeroed = record {
  ctime_sec = 0;
  ctime_nsec = 0;
  mtime_sec = 0;
  mtime_nsec = 0;
  uid = 0;
  gid = 0;
  size = 0;
  mode = 0;
  blob_sha1 = replicate 20 0;
  commit_sha1 = replicate 20 0;
  flags = 0;
  path = [];
  staged_blob_sha1 = replicate 20 0;
}

-- The two booleans say whether calloc(3) and strdup(3) succeed.
pub entry_alloc : Bool → Bool → Bytes → Result Entry
entry_alloc allocated copied relpath =
    if not allocated
    then err errno
    else if not copied
    then err errno
    else (let len = length relpath in
        let clipped = if ltb f_path_len len then f_path_len else len in
        ok (record zeroed { path = relpath; flags = bit_or 0 clipped }))

-- What fstatat(2) reports of a file: the fields that the index keeps.
pub record Stat : Type 0 where
  pub st_mode : ℕ
  pub st_ctime_sec : ℕ
  pub st_ctime_nsec : ℕ
  pub st_mtime_sec : ℕ
  pub st_mtime_nsec : ℕ
  pub st_uid : ℕ
  pub st_gid : ℕ
  pub st_size : ℕ

-- The result of fstatat(2): a failure, with ENOENT or another error, or the file's status.
pub data StatResult : Type 0 where
  no_entry : StatResult
  failed : StatResult
  found : Stat → StatResult

abbrev s_ifdir : ℕ
s_ifdir = 0o040000

-- The start of got_fileindex_entry_update: the entry with its flag for the file on disk, and the
-- status, if the file is there.
pub entry_stat : Entry → StatResult → Result (Entry × Option Stat)
entry_stat ie no_entry = if entry_has_file_on_disk ie then err errno else ok (ie, none)
entry_stat ie failed = err errno
entry_stat ie (found sb) =
    if not (bit_and sb.st_mode s_ifdir == 0)
    then err errno
    else ok (record ie { flags = clear32 ie.flags f_no_file_on_disk }, some sb)

-- `S_ISLNK(mode)`
abbrev is_link : ℕ → Bool
is_link mode = bit_and mode 0o170000 == s_iflnk

abbrev with_timestamps : Bool → Stat → Entry → Entry
with_timestamps update_timestamps sb ie =
    if update_timestamps
    then record ie {
      ctime_sec = sb.st_ctime_sec;
      ctime_nsec = sb.st_ctime_nsec;
      mtime_sec = sb.st_mtime_sec;
      mtime_nsec = sb.st_mtime_nsec;
    }
    else ie

pub entry_from_stat : Bool → Option Stat → Entry → Entry
entry_from_stat update_timestamps none ie = ie
entry_from_stat update_timestamps (some sb) ie =
    let timed = with_timestamps update_timestamps sb ie in
    let sized = record timed {
      uid = sb.st_uid;
      gid = sb.st_gid;
      size = bit_and sb.st_size 0xffffffff;
    } in
    if is_link sb.st_mode
    then entry_perms_set (entry_filetype_set sized mode_symlink) 0
    else entry_perms_set (entry_filetype_set sized mode_regular_file) (bit_and sb.st_mode 0o777)

pub entry_set_blob : Option Bytes → Entry → Entry
entry_set_blob none ie = record ie { flags = bit_or ie.flags f_no_blob }
entry_set_blob (some sha1) ie = record ie { blob_sha1 = sha1; flags = clear32 ie.flags f_no_blob }

pub entry_set_commit : Option Bytes → Entry → Entry
entry_set_commit none ie = record ie { flags = bit_or ie.flags f_no_commit }
entry_set_commit (some sha1) ie = record ie {
  commit_sha1 = sha1;
  flags = clear32 ie.flags f_no_commit;
}

pub entry_update : Entry → StatResult → Option Bytes → Option Bytes → Bool → Result Entry
entry_update ie stat blob_sha1 commit_sha1 update_timestamps = do
  (ie', sb) ← entry_stat ie stat
  ok (
      entry_set_commit commit_sha1
        (entry_set_blob blob_sha1 (entry_from_stat update_timestamps sb ie')))
