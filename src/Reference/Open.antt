-- ===== src/Reference/Open.antt =====
-- Opening a reference of lib/reference.c, in a file of its own or among the packed references.
-- Memory is taken to be there, and references are opened without a lock.
use gameoftrees.Base.{
  ℕ, Bool, true, false, ◌&&◌, ◌||◌, List, [], ◌∷◌, ◌++◌, Bytes, Option, none, some, leb, ◌==◌,
  if◌then◌else◌, length, drop, bytes_eq,
}
use gameoftrees.Error.{not_ref, errno, bad_ref_data, out_of_bounds, Result, ok, err, trap, ◌>>=◌}
use gameoftrees.Digest.{parse_sha1_digest}
use gameoftrees.Reference.{
  Reference, ref, symref, has_prefix, refs_slash, is_well_known_ref, is_empty, starts,
}

-- What fopen(3) and getline(3) give for a path.
pub data RefFile : Type 0 where
  -- ENOENT or ENOTDIR
  missing : RefFile
  -- any other failure of fopen(3)
  unreadable : RefFile
  -- the end of the file at once
  no_line : RefFile
  -- EISDIR, as getline(3) fails
  is_directory : RefFile
  -- any other failure of getline(3)
  broken : RefFile
  -- the first line, with its newline if it has one
  first_line : Bytes → RefFile

-- The packed references are the lines of their file, each with its newline, and whether getline(3)
-- fails behind them, with the stream's error indicator set; there may be no file.
pub record Repo : Type 0 where
  pub path_git_dir : Bytes
  pub path_refs : Bytes
  pub file : Bytes → RefFile
  pub packed_refs : Option (List Bytes × Bool)

-- The string in a buffer, which ends at a NUL.
abbrev pub up_to_nul : Bytes → Bytes
up_to_nul [] = []
up_to_nul (c ∷ s) = if c == 0 then [] else c ∷ up_to_nul s

-- The newlines at the end of a line are overwritten.
abbrev pub strip_newlines : Bytes → Bytes
strip_newlines [] = []
strip_newlines (c ∷ s) =
    let rest = strip_newlines s in if c == 10 && is_empty rest then [] else c ∷ rest

abbrev pub symref_prefix : Bytes
symref_prefix = b'r' ∷ b'e' ∷ b'f' ∷ b':' ∷ b' ' ∷ []

unfoldable pub parse_symref : Bytes → Bytes → Result Reference
parse_symref name line = if is_empty line then err bad_ref_data else ok (symref name line)

unfoldable pub parse_ref_line : Bytes → Bytes → Result Reference
parse_ref_line name line =
    let plain : Result Reference = elim (parse_sha1_digest line) [
      | none ↦ err bad_ref_data
      | some id ↦ ok (ref name id false)
    ] in
    if has_prefix symref_prefix line then parse_symref name (drop 5 line) else plain

-- `none` is a reference that stays NULL without an error.
unfoldable pub parse_ref_file : Bytes → RefFile → Result (Option Reference)
parse_ref_file absname missing = err not_ref
parse_ref_file absname unreadable = err errno
parse_ref_file absname no_line = ok none
parse_ref_file absname is_directory = err not_ref
parse_ref_file absname broken = err errno
parse_ref_file absname (first_line line) =
    parse_ref_line absname (up_to_nul (strip_newlines line)) >>= λ r. ok (some r)

unfoldable pub get_refs_dir_path : Repo → Bytes → Bytes
get_refs_dir_path repo refname =
    if is_well_known_ref refname || has_prefix refs_slash refname
    then repo.path_git_dir
    else repo.path_refs

-- "%s/%s"
abbrev pub joined : Bytes → Bytes → Bytes
joined a b = a ++ b'/' ∷ b

-- A subdirectory, and the slash behind it if there is one.
abbrev pub in_subdir : Bytes → Bytes → Bytes
in_subdir subdir name = subdir ++ (if is_empty subdir then [] else b'/' ∷ []) ++ name

unfoldable pub open_ref : Repo → Bytes → Bytes → Bytes → Result (Option Reference)
open_ref repo path_refs subdir name =
    if has_prefix refs_slash name || (is_empty subdir && is_well_known_ref name)
    then parse_ref_file name (repo.file (joined path_refs name))
    else parse_ref_file (refs_slash ++ in_subdir subdir name)
        (repo.file (joined path_refs (in_subdir subdir name)))

-- The string at an offset of a buffer that getline(3) has filled, the NUL behind the line included.
unfoldable pub string_at : Bytes → ℕ → Result Bytes
string_at buffer offset =
    if leb (length buffer) offset then trap out_of_bounds else ok (up_to_nul (drop offset buffer))

-- The name is the one asked for, if there is one.
unfoldable pub named : Option Bytes → Bytes → Bytes → Option Reference
named none name id = some (ref name id true)
named (some abs_refname) name id =
    if bytes_eq name abs_refname then some (ref abs_refname id true) else none

unfoldable pub parse_packed_ref_line : Option Bytes → Bytes → Result (Option Reference)
parse_packed_ref_line abs_refname buffer =
    let line = up_to_nul buffer in
    let parsed : Result (Option Reference) = elim (parse_sha1_digest line) [
      | none ↦ err bad_ref_data
      | some id ↦ string_at buffer 41 >>= λ name. ok (named abs_refname name id)
    ] in
    if starts b'#' line || starts b'^' line then ok none else parsed

-- The newline that getline(3) leaves becomes a NUL; another NUL is behind it.
abbrev pub line_buffer : Bytes → Bytes
line_buffer [] = 0 ∷ []
line_buffer (c ∷ s) = (if c == 10 && is_empty s then 0 else c) ∷ line_buffer s

abbrev pub subdirs : List Bytes
subdirs =
    (b'h' ∷ b'e' ∷ b'a' ∷ b'd' ∷ b's' ∷ [])
    ∷ (b't' ∷ b'a' ∷ b'g' ∷ b's' ∷ [])
    ∷ (b'r' ∷ b'e' ∷ b'm' ∷ b'o' ∷ b't' ∷ b'e' ∷ b's' ∷ [])
    ∷ []

abbrev pub absolute_name : Bytes → Bytes → Bytes
absolute_name refname subdir =
    if has_prefix refs_slash refname then refname else refs_slash ++ joined subdir refname

-- The loop of open_packed_ref over the subdirectories, on one line.
unfoldable pub packed_subdirs : Bytes → Bytes → List Bytes → Result (Option Reference)
packed_subdirs refname buffer [] = ok none
packed_subdirs refname buffer (d ∷ ds) = do
  found ← parse_packed_ref_line (some (absolute_name refname d)) buffer
  elim found [ some r ↦ ok (some r) | none ↦ packed_subdirs refname buffer ds ]

unfoldable pub open_packed_ref : Bytes → List Bytes → Bool → Result (Option Reference)
open_packed_ref refname [] fails = if fails then err errno else ok none
open_packed_ref refname (line ∷ lines) fails = do
  found ← packed_subdirs refname (line_buffer line) subdirs
  elim found [ some r ↦ ok (some r) | none ↦ open_packed_ref refname lines fails ]

-- Whether the search goes on behind an open_ref that gives this.
unfoldable pub goes_on : Result (Option Reference) → Bool
goes_on (ok none) = true
goes_on (err not_ref) = true
goes_on _ = false

unfoldable pub open_subdirs : Repo → Bytes → Bytes → List Bytes → Result (Option Reference)
open_subdirs repo path_refs refname [] = err not_ref
open_subdirs repo path_refs refname (d ∷ ds) =
    let found = open_ref repo path_refs d refname in
    let rest = open_subdirs repo path_refs refname ds in if goes_on found then rest else found

-- fclose(3) is taken to succeed.
unfoldable pub open_packed : Repo → Bytes → Result (Option Reference)
open_packed repo refname = elim repo.packed_refs [
  | none ↦ err not_ref
  | some (lines, fails) ↦ open_packed_ref refname lines fails
]

abbrev pub found_ref : Result (Option Reference) → Result Reference
found_ref (ok (some r)) = ok r
found_ref (ok none) = err not_ref
found_ref (err e) = err e
found_ref (trap z) = trap z

-- got_ref_open; the error that the last subdirectory leaves is GOT_ERR_NOT_REF where it matters.
unfoldable pub ref_open : Repo → Bytes → Result Reference
ref_open repo refname =
    let path_refs = get_refs_dir_path repo refname in
    let on_disk = open_subdirs repo path_refs refname subdirs in
    let packed = open_packed repo refname in
    if is_well_known_ref refname
    then found_ref (open_ref repo path_refs [] refname)
    else found_ref (if goes_on on_disk then packed else on_disk)
