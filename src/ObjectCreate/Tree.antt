-- ===== src/ObjectCreate/Tree.antt =====
-- got_object_tree_create of lib/object_create.c, with te_mode2str and the order of the entries.
pub mod Modes
pub mod RoundTrip
use gameoftrees.Base.{
  ℕ, zero, suc, ◌+◌, ◌/◌, ◌%◌, ◌^◌, Bool, true, false, not, List, [], ◌∷◌, ◌++◌, Bytes, bit_and,
  bit_or, Ordering, memcmp, ltb, leb, ◌==◌, if◌then◌else◌, length, take,
}
use gameoftrees.Error.{bad_filetype, no_space, Result, ok, err, ◌>>=◌}
use gameoftrees.FileIndex.Codec.{Sha1}
use gameoftrees.ObjectParse.Header.{tree_label}
use gameoftrees.ObjectCreate.{Step, update, fwrite, header_text, written}

pub record TreeEntry : Type 0 where
  pub mode : ℕ
  pub name : Bytes
  pub id : Bytes

-- S_ISREG and its like, with S_IFREG and its like.
abbrev pub has_format : ℕ → ℕ → Bool
has_format format mode = bit_and mode 0xf000 == format

abbrev pub s_ifreg : ℕ
s_ifreg = 0x8000

abbrev pub s_ifdir : ℕ
s_ifdir = 0x4000

abbrev pub s_iflnk : ℕ
s_iflnk = 0xa000

-- GOT_DEFAULT_FILE_MODE
abbrev pub default_file_mode : ℕ
default_file_mode = 0x81a4

-- S_IXUSR | S_IXGRP | S_IXOTH
abbrev pub x_bits : ℕ
x_bits = 0x49

-- The mode that is written.
unfoldable pub git_mode : TreeEntry → Result ℕ
git_mode te =
    if has_format s_ifreg te.mode
    then ok
        (if bit_and te.mode x_bits == 0 then default_file_mode else bit_or default_file_mode x_bits)
    else if has_format (bit_or s_ifdir s_iflnk) te.mode
    then ok (bit_or s_ifdir s_iflnk)
    else if has_format s_iflnk te.mode
    then ok s_iflnk
    else if has_format s_ifdir te.mode
    then ok s_ifdir
    else err bad_filetype

-- The digits of "%o" in front of `acc`; a `mode_t` of 32 bits has at most 11.
unfoldable pub octal_loop : ℕ → ℕ → List ℕ → List ℕ
octal_loop zero n acc = acc
octal_loop (suc fuel) n acc =
    let rest = octal_loop fuel (n / 8) ((n % 8) ∷ acc) in if ltb n 8 then n % 8 ∷ acc else rest

unfoldable pub octal_digits : ℕ → List ℕ
octal_digits n = octal_loop 11 n []

abbrev pub octal_string : List ℕ → Bytes
octal_string [] = []
octal_string (d ∷ ds) = (b'0' + d) ∷ octal_string ds

-- snprintf(buf, len, "%o ", mode), and the test of its result.
pub mode_text : ℕ → ℕ → Result Bytes
mode_text len mode =
    let text = octal_string (octal_digits mode) ++ (b' ' ∷ []) in
    if leb len (length text) then err no_space else ok text

pub te_mode2str : ℕ → TreeEntry → Result Bytes
te_mode2str len te = git_mode te >>= mode_text len

-- A name in a buffer of NAME_MAX + 2 bytes, with a slash if it is a directory's.
abbrev pub git_name : TreeEntry → Bytes
git_name te =
    let name = take 256 te.name in
    if has_format s_ifdir te.mode then take 256 (name ++ (b'/' ∷ [])) else name

pub git_order : TreeEntry → TreeEntry → Ordering
git_order te1 te2 = memcmp (git_name te1) (git_name te2)

-- The two loops over the entries; `modebuf` has 8 bytes.
pub entries_len : ℕ → List TreeEntry → Result ℕ
entries_len len [] = ok len
entries_len len (te ∷ entries) = do
  modebuf ← te_mode2str 8 te
  entries_len ((len + (length modebuf + length te.name + 1 + 20)) % 2 ^ 64) entries

pub tree_steps : List TreeEntry → Result (List Step)
tree_steps [] = ok []
tree_steps (te ∷ entries) = do
  modebuf ← te_mode2str 8 te
  let name = te.name ++ (0 ∷ [])
  steps ← tree_steps entries
  ok (
      fwrite modebuf
      ∷ update modebuf
      ∷ fwrite name
      ∷ update name
      ∷ fwrite te.id
      ∷ update te.id
      ∷ steps)

-- `mergesort` is mergesort(3). Memory and files are taken to be there.
pub object_tree_create :
    Sha1
    → ((TreeEntry → TreeEntry → Ordering) → List TreeEntry → List TreeEntry)
    → List TreeEntry
    → Result (Bytes × Bytes)
object_tree_create sha mergesort entries = do
  len ← entries_len 0 (mergesort git_order entries)
  steps ← tree_steps (mergesort git_order entries)
  let header = header_text tree_label len ++ (0 ∷ [])
  ok (written sha (update header ∷ fwrite header ∷ steps))
